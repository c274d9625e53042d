-- ===== src/Teams/Bootstrap.antt =====
-- `TeamAdminService.bootstrap` (src/lorcana/teams/service.py): one transaction in which the team and
-- each member of its definition are written.
pub mod Ready
pub mod Find
pub mod Steps
pub mod Ending
pub mod Kept
pub mod Written
pub mod Repeat
pub mod Again
use inkspire_lorcana_develop.Prelude.{
  ℕ, zero, suc, if◌then◌else◌, String, List, [], ◌∷◌, length, none, some, Result, ok, err, and_then,
  ◌>>=◌, transact, Datetime, to_utc,
}
use inkspire_lorcana_develop.Teams.Tables.{Db}
use inkspire_lorcana_develop.Teams.Repository.{
  upsert_team, member_id_for_playhub_player, create_member, update_member_name, link_playhub_player,
  ensure_active_membership,
}
use inkspire_lorcana_develop.Teams.Definition.{TeamBootstrapMember, TeamBootstrap}

pub record TeamBootstrapResult : Type 0 where
  pub team_id : ℕ
  pub members_processed : ℕ
  pub members_created : ℕ
  pub memberships_created : ℕ

-- The clock's reading, and the UUIDs that the factory returns, call by call.
pub record TeamAdminService : Type 0 where
  pub clock : Datetime
  pub uuid_factory : ℕ → ℕ

-- The calls of the factory so far, the two counters, and the tables.
pub record Progress : Type 0 where
  pub calls : ℕ
  pub created_members : ℕ
  pub created_memberships : ℕ
  pub db : Db

module _ (uuid : ℕ → ℕ) (linked_by : String) (now team_id : ℕ) where
  -- A new member, linked to the item's player.
  unfoldable pub create_linked : TeamBootstrapMember → Progress → Result (ℕ × Progress)
  create_linked item p = do
    let member_id = uuid p.calls
    created ← create_member member_id item.preferred_display_name now p.db
    linked ← link_playhub_player member_id item.playhub_player_id now (some linked_by) created
    ok (
      member_id,
      record p { calls = suc p.calls; created_members = suc p.created_members; db = linked },
    )

  -- The member of the item's player, renamed, or a new one.
  unfoldable pub find_or_create : TeamBootstrapMember → Progress → Result (ℕ × Progress)
  find_or_create item p = elim (member_id_for_playhub_player item.playhub_player_id p.db) [
    | some member_id ↦ ok (
      member_id,
      record p { db = update_member_name member_id item.preferred_display_name now p.db },
    )
    | none ↦ create_linked item p
  ]

  unfoldable pub enroll : TeamBootstrapMember → ℕ × Progress → Result Progress
  enroll item (member_id, p) =
      and_then (ensure_active_membership (uuid p.calls) team_id member_id item.role now p.db)
        λ (added, db). ok (record p {
          calls = suc p.calls;
          created_memberships = if added then suc p.created_memberships else p.created_memberships;
          db = db;
        })

  unfoldable pub bootstrap_member : TeamBootstrapMember → Progress → Result Progress
  bootstrap_member item p = and_then (find_or_create item p) (enroll item)

  unfoldable pub bootstrap_members : List TeamBootstrapMember → Progress → Result Progress
  bootstrap_members [] p = ok p
  bootstrap_members (item ∷ items) p = and_then (bootstrap_member item p) (bootstrap_members items)

abbrev pub bootstrap_result : TeamBootstrap → ℕ → Progress → TeamBootstrapResult
bootstrap_result definition team_id p = record {
  team_id = team_id;
  members_processed = length definition.members;
  members_created = p.created_members;
  memberships_created = p.created_memberships;
}

abbrev pub started : Db → Progress
started db = record { calls = suc zero; created_members = 0; created_memberships = 0; db = db }

unfoldable pub bootstrap :
    TeamAdminService → TeamBootstrap → String → Db → Result TeamBootstrapResult × Db
bootstrap service definition linked_by db = elim (to_utc service.clock) [
  | err e ↦ (err e, db)
  | ok now ↦
      transact
        (λ tables. do
          (team_id, db) ←
              upsert_team (service.uuid_factory zero) definition.slug definition.name now tables
          p ←
              bootstrap_members service.uuid_factory linked_by now team_id definition.members
                (started db)
          ok (bootstrap_result definition team_id p, p.db))
        db
]
