-- ===== src/Teams/Repository.antt =====
-- `TeamRepository` (src/lorcana/teams/repository.py): each method as its statements, in order, under
-- the primary keys, foreign keys and unique indexes of src/lorcana/db/schema/identity.py.
pub mod Views
use inkspire_lorcana_develop.Prelude.{
  ℕ, ◌==◌, Bool, true, false, not, ◌&&◌, ◌||◌, if◌then◌else◌, String, List, [], ◌∷◌, ◌++◌, any,
  find, update_where, Option, none, some, ℤ, Result, ok, err, value_error, integrity_error,
}
use inkspire_lorcana_develop.Teams.Tables.{
  Db, active, Member, Team, TeamMembership, MemberPlayhubLink, is_member, is_team, has_slug,
  is_membership, is_current, is_player, is_primary_of,
}

abbrev pub retitled : String → ℕ → Team → Team
retitled name now t = record t { name = name; status = active; updated_at = now }

abbrev pub new_team : ℕ → String → String → ℕ → Team
new_team team_id slug name now = record {
  team_id = team_id;
  slug = slug;
  name = name;
  status = active;
  created_at = now;
  updated_at = now;
}

-- `INSERT … ON CONFLICT (slug) DO UPDATE … RETURNING team_id`: the row of the slug is rewritten before
-- the primary key of the new one is looked at.
unfoldable pub upsert_team : ℕ → String → String → ℕ → Db → Result (ℕ × Db)
upsert_team team_id slug name now db = elim (find (has_slug slug) db.teams) [
  | some old ↦
      ok (
        old.team_id,
        record db { teams = update_where (has_slug slug) (retitled name now) db.teams },
      )
  | none ↦
      if any (is_team team_id) db.teams
      then err integrity_error
      else ok (team_id, record db { teams = db.teams ++ new_team team_id slug name now ∷ [] })
]

abbrev pub member_id_for_playhub_player : ℤ → Db → Option ℕ
member_id_for_playhub_player player_id db =
    elim (find (is_player player_id) db.member_playhub_links) [
      | none ↦ none
      | some l ↦ some l.member_id
    ]

abbrev pub new_member : ℕ → String → ℕ → Member
new_member member_id name now = record {
  member_id = member_id;
  preferred_display_name = name;
  status = active;
  created_at = now;
  updated_at = now;
}

unfoldable pub create_member : ℕ → String → ℕ → Db → Result Db
create_member member_id name now db =
    if any (is_member member_id) db.members
    then err integrity_error
    else ok (record db { members = db.members ++ new_member member_id name now ∷ [] })

abbrev pub renamed : String → ℕ → Member → Member
renamed name now m = record m { preferred_display_name = name; updated_at = now }

abbrev pub update_member_name : ℕ → String → ℕ → Db → Db
update_member_name member_id name now db = record db {
  members = update_where (is_member member_id) (renamed name now) db.members;
}

-- An inserted link: its player and, if it is primary, its member have no other; its member exists.
abbrev insert_link : MemberPlayhubLink → Db → Result Db
insert_link l db =
    if any (is_player l.player_id) db.member_playhub_links
      || l.is_primary && any (is_primary_of l.member_id) db.member_playhub_links
      || not (any (is_member l.member_id) db.members)
    then err integrity_error
    else ok (record db { member_playhub_links = db.member_playhub_links ++ l ∷ [] })

abbrev pub new_link : ℤ → ℕ → ℕ → Option String → Db → MemberPlayhubLink
new_link player_id member_id now linked_by db = record {
  player_id = player_id;
  member_id = member_id;
  is_primary = not (any (is_primary_of member_id) db.member_playhub_links);
  linked_at = now;
  linked_by = linked_by;
}

unfoldable pub link_playhub_player : ℕ → ℤ → ℕ → Option String → Db → Result Db
link_playhub_player member_id player_id now linked_by db =
    elim (member_id_for_playhub_player player_id db) [
      | some existing ↦ if existing == member_id then ok db else err value_error
      | none ↦ insert_link (new_link player_id member_id now linked_by db) db
    ]

abbrev pub new_membership : ℕ → ℕ → ℕ → String → ℕ → TeamMembership
new_membership membership_id team_id member_id role now = record {
  team_membership_id = membership_id;
  team_id = team_id;
  member_id = member_id;
  role = role;
  joined_at = now;
  ended_at = none;
}

-- An inserted membership: a new id, and no other current one of its team and member, which exist.
abbrev insert_membership : TeamMembership → Db → Result Db
insert_membership s db =
    if any (is_membership s.team_membership_id) db.team_memberships
      || any (is_current s.team_id s.member_id) db.team_memberships
      || not (any (is_team s.team_id) db.teams && any (is_member s.member_id) db.members)
    then err integrity_error
    else ok (record db { team_memberships = db.team_memberships ++ s ∷ [] })

abbrev pub with_role : String → TeamMembership → TeamMembership
with_role role s = record s { role = role }

-- Whether a membership was added, and the tables.
unfoldable pub ensure_active_membership : ℕ → ℕ → ℕ → String → ℕ → Db → Result (Bool × Db)
ensure_active_membership membership_id team_id member_id role now db =
    elim (find (is_current team_id member_id) db.team_memberships) [
      | some existing ↦ ok (
        false,
        record db {
          team_memberships =
              update_where (is_membership existing.team_membership_id) (with_role role)
                db.team_memberships;
        },
      )
      | none ↦
          elim (insert_membership (new_membership membership_id team_id member_id role now) db) [
            | ok after ↦ ok (true, after)
            | err e ↦ err e
          ]
    ]
