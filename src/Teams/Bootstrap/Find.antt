-- ===== src/Teams/Bootstrap/Find.antt =====
-- The member of a player is found or created, and the player is linked to it.
use inkspire_lorcana_develop.Prelude.{
  ℕ, suc, ◌+◌, ◌≤◌, ◌==◌, true, false, String, any, length, length-update_where, none, some, ok,
  ◌≡◌, ◌≢◌, any-append_new, refl, ◌∙◌, arith,
}
use inkspire_lorcana_develop.Teams.Tables.{Db, is_member, is_team}
use inkspire_lorcana_develop.Teams.Repository.{
  member_id_for_playhub_player, new_member, renamed, update_member_name,
}
use inkspire_lorcana_develop.Teams.Repository.Views.{
  name_of, role_of, name_renamed, name_kept, renamed_exists, create_member_new,
  link_playhub_player_new,
}
use inkspire_lorcana_develop.Teams.Bootstrap.Ready.{
  IsConsistent, IsFresh, apart, with_member, with_link, new-IsConsistent, new_apart,
}
use inkspire_lorcana_develop.Teams.Definition.WellFormed.{Differ}
use inkspire_lorcana_develop.Teams.Definition.{TeamBootstrapMember}
use inkspire_lorcana_develop.Teams.Bootstrap.{Progress, create_linked, find_or_create}

-- The player of the item is linked to a member with its name, and with its role in the team.
pub record IsSettled (team_id : ℕ) (db : Db) (item : TeamBootstrapMember) : Type 0 where
  pub member_id : ℕ
  pub linked : member_id_for_playhub_player item.playhub_player_id db ≡ some member_id
  pub named : name_of member_id db ≡ some item.preferred_display_name
  pub enrolled : role_of team_id member_id db ≡ some item.role

-- The tables have grown by what the counters count.
abbrev pub Counted : Progress → Progress → Type 0
Counted p p' =
    (length p'.db.members + p.created_members ≡ length p.db.members + p'.created_members)
    × (length p'.db.member_playhub_links + p.created_members
        ≡ length p.db.member_playhub_links + p'.created_members)
    × (length p'.db.team_memberships + p.created_memberships
        ≡ length p.db.team_memberships + p'.created_memberships)

module _ (uuid : ℕ → ℕ) (linked_by : String) (now t : ℕ)
    (distinct : (j k : ℕ) → uuid j ≡ uuid k → j ≡ k) where
  pub record IsReady (p : Progress) : Type 0 where
    pub consistent : IsConsistent p.db
    pub fresh : IsFresh uuid p.calls p.db
    pub team : any (is_team t) p.db.teams ≡ true

  apart_ids : (n k : ℕ) → suc n ≤ k → (uuid n == uuid k) ≡ false
  apart_ids n k le = ground (arith, distinct n k)

  -- After the member of an item is found or created.
  pub record Found (item : TeamBootstrapMember) (p : Progress) : Type 0 where
    pub m : ℕ
    pub p' : Progress
    pub made : find_or_create uuid linked_by now t item p ≡ ok (m, p')
    pub ready : IsReady p'
    pub linked : member_id_for_playhub_player item.playhub_player_id p'.db ≡ some m
    pub named : name_of m p'.db ≡ some item.preferred_display_name
    pub exists : any (is_member m) p'.db.members ≡ true
    pub others :
        (x : TeamBootstrapMember)
        → Differ item x
        → IsSettled t p.db x
        → IsSettled t p'.db x
          × ((k : ℕ) → member_id_for_playhub_player x.playhub_player_id p'.db ≡ some k → k ≢ m)
    pub teams : p'.db.teams ≡ p.db.teams
    pub grown : Counted p p'

  pub Found-old :
      (item : TeamBootstrapMember) (p : Progress) (m : ℕ)
      → IsReady p
      → member_id_for_playhub_player item.playhub_player_id p.db ≡ some m
      → Found item p
  unfolding find_or_create
  Found-old item p m ready e =
      let db = p.db in
      let name = item.preferred_display_name in
      let there = ready.consistent.refers item.playhub_player_id m e in
      record {
        m = m;
        p' = record p { db = update_member_name m name now db };
        made = ground (arith, e);
        ready = record {
          consistent = record {
            refers = λ q k f. renamed_exists m name now k db ∙ ready.consistent.refers q k f;
            single = ready.consistent.single;
            unique = ready.consistent.unique;
          };
          fresh = λ k le.
              (renamed_exists m name now (uuid k) db ∙ (ready.fresh k le).0, (ready.fresh k le).1);
          team = ready.team;
        };
        linked = e;
        named = name_renamed m name now db there;
        exists = renamed_exists m name now m db ∙ there;
        others = λ x different settled.
            let other = apart ready.consistent item x m e different in
            (
              record {
                member_id = settled.member_id;
                linked = settled.linked;
                named =
                    name_kept m settled.member_id name now db
                      (other settled.member_id settled.linked)
                    ∙ settled.named;
                enrolled = settled.enrolled;
              },
              other,
            );
        teams = refl;
        grown = (
          omega (arith, length-update_where (is_member m) (renamed name now) db.members),
          refl,
          refl,
        );
      }

  pub Found-new :
      (item : TeamBootstrapMember) (p : Progress)
      → IsReady p
      → member_id_for_playhub_player item.playhub_player_id p.db ≡ none
      → Found item p
  unfolding find_or_create create_linked
  Found-new item p ready e =
      let db = p.db in
      let q = item.playhub_player_id in
      let name = item.preferred_display_name in
      let m = uuid p.calls in
      let new = (ready.fresh p.calls (omega arith)).0 in
      let db1 = with_member m name now db in
      let created = create_member_new m name now db new in
      let db2 = with_link q m now (some linked_by) db1 in
      let joined = link_playhub_player_new m q now (some linked_by) db1 e created.exists in
      record {
        m = m;
        p' = record p { calls = suc p.calls; created_members = suc p.created_members; db = db2 };
        made = ground (arith, e, created.made, joined.made);
        ready = record {
          consistent = new-IsConsistent q m now name (some linked_by) db ready.consistent new;
          fresh = λ k le. (
            any-append_new (is_member (uuid k)) db.members (new_member m name now)
                  (apart_ids p.calls k le)
                ∙ (ready.fresh k (omega arith)).0,
            (ready.fresh k (omega arith)).1,
          );
          team = ready.team;
        };
        linked = joined.linked;
        named = created.named;
        exists = created.exists;
        others = λ x different settled.
            let other =
              new_apart q m now name (some linked_by) db ready.consistent new x.playhub_player_id
                different in
            let stays = joined.stays x.playhub_player_id settled.member_id settled.linked in
            (
              record {
                member_id = settled.member_id;
                linked = stays;
                named =
                    created.kept settled.member_id (other settled.member_id stays) ∙ settled.named;
                enrolled = settled.enrolled;
              },
              other,
            );
        teams = refl;
        grown = (omega (arith, created.grown), omega (arith, joined.grown), refl);
      }
