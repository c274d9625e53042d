-- ===== src/Teams/Tests.antt =====
-- The theorems on teams and identities at concrete tables.
use inkspire_lorcana_develop.Prelude.{
  ℕ, ◌+◌, true, none, [], ◌∷◌, pos, Json, ok, err, type_error, naive, aware, ◌≡◌, ◌⊎◌, refl, arith,
  Error,
}
use inkspire_lorcana_develop.Prelude.Values.{int, str, list, mapping, nil, cons, end, field}
use inkspire_lorcana_develop.PlayHub.Raw.{Builtins}
use inkspire_lorcana_develop.Teams.Tables.{Db, active, empty_db}
use inkspire_lorcana_develop.Teams.Repository.{
  upsert_team, create_member, link_playhub_player, ensure_active_membership,
}
use inkspire_lorcana_develop.Teams.Definition.{TeamBootstrap, read_members, load_team_bootstrap}
use inkspire_lorcana_develop.Teams.Definition.WellFormed.{
  IsWellFormed, load_team_bootstrap-IsWellFormed,
}
use inkspire_lorcana_develop.Teams.Bootstrap.{
  TeamAdminService, TeamBootstrapResult, find_or_create, create_linked, enroll, bootstrap_member,
  bootstrap_members, bootstrap,
}
use inkspire_lorcana_develop.Teams.Bootstrap.Ready.{IsConsistent}
use inkspire_lorcana_develop.Teams.Bootstrap.Ending.{Settles, bootstrap-Settles}
use inkspire_lorcana_develop.Teams.Bootstrap.Again.{bootstrap_again}
use inkspire_lorcana_develop.Teams.Bootstrap.Repeat.{SameRows}
use inkspire_lorcana_develop.Teams.Identity.{MemberIdentity, link_discord_for_playhub_player}
use inkspire_lorcana_develop.Teams.Identity.Linked.{Linked, Refused, link_discord_settles}

-- A member who is linked to player 7, and no team yet.
abbrev sample : Db
sample = record empty_db {
  members =
      record {
        member_id = 1;
        preferred_display_name = "Ann";
        status = active;
        created_at = 5;
        updated_at = 5;
      }
      ∷ [];
  member_playhub_links =
      record {
        player_id = pos 7;
        member_id = 1;
        is_primary = true;
        linked_at = 5;
        linked_by = none;
      }
      ∷ [];
}

sample-IsConsistent : IsConsistent sample
sample-IsConsistent = record {
  refers = λ q m e. ground (arith, e);
  single = λ p q m e f. ground (arith, e, f);
  unique = λ i. omega arith;
}

abbrev service : ℕ → TeamAdminService
service base = record { clock = aware 100; uuid_factory = λ n. n + base }

abbrev crew : TeamBootstrap
crew = record {
  slug = "inkspire";
  name = "Inkspire";
  members =
      record { preferred_display_name = "Anna"; playhub_player_id = pos 7; role = "captain" }
      ∷ record { preferred_display_name = "Bob"; playhub_player_id = pos 8; role = "member" }
      ∷ [];
}

abbrev report : TeamBootstrapResult
report = record {
  team_id = 10;
  members_processed = 2;
  members_created = 1;
  memberships_created = 2;
}

bootstrap-Settles_example :
    (r : TeamBootstrapResult) × (after : Db) × (bootstrap (service 10) crew "cli" sample
      ≡ (ok r, after))
    × Settles crew sample r after
bootstrap-Settles_example =
    bootstrap-Settles (service 10) crew "cli" 100 sample refl sample-IsConsistent
      (λ j k e. omega (arith, e)) (λ k le. (ground arith, ground arith)) refl ((refl, tt), (tt, tt))

abbrev bootstrapped : Db
bootstrapped = (bootstrap (service 10) crew "cli" sample).1

crew-bootstrapped : bootstrap (service 10) crew "cli" sample ≡ (ok report, bootstrapped)
unfolding bootstrap upsert_team bootstrap_members bootstrap_member find_or_create create_linked
    enroll create_member link_playhub_player ensure_active_membership
crew-bootstrapped = refl

bootstrap_again_example :
    (last : Db) × (bootstrap (service 50) crew "again" bootstrapped
      ≡ (ok (record report { members_created = 0; memberships_created = 0 }), last))
    × SameRows bootstrapped last
bootstrap_again_example =
    bootstrap_again (service 10) (service 50) crew "cli" "again" 100 sample crew-bootstrapped refl

-- `int` of an integer and `str` of a text.
abbrev python : Builtins
python = record {
  to_int = λ v. elim v [ int n ↦ ok n | _ ↦ err type_error ];
  to_str = λ v. elim v [ str s ↦ s | _ ↦ "" ];
  from_isoformat = λ s. ok (naive 0);
  equal = λ a b. true;
}

abbrev contents : Json
contents = mapping (
    field "team" (mapping (field "slug" (str "inkspire") (field "name" (str " Inkspire ") end))) (
      field "members"
        (list (
          cons
            (mapping (
              field "preferred_display_name" (str "Anna")
                (field "playhub_player_id" (int (pos 7)) (field "role" (str "captain") end))))
            (cons
              (mapping (
                field "preferred_display_name" (str "Bob")
                  (field "playhub_player_id" (int (pos 8)) end)))
              nil)))
        end))

load_team_bootstrap-IsWellFormed_example : IsWellFormed contents crew
unfolding load_team_bootstrap read_members
load_team_bootstrap-IsWellFormed_example =
    load_team_bootstrap-IsWellFormed python (λ s. s) contents refl

link_discord_settles_example :
    ((row : MemberIdentity) × (after : Db) × (link_discord_for_playhub_player
          (aware 9)
          (pos 7)
          (pos 42)
          sample
        ≡ (ok row, after))
      × Linked (pos 7) (pos 42) row sample after)
    ⊎ ((e : Error) × (link_discord_for_playhub_player (aware 9) (pos 7) (pos 42) sample
          ≡ (err e, sample))
        × Refused (aware 9) (pos 7) (pos 42) sample e)
link_discord_settles_example = link_discord_settles (aware 9) (pos 7) (pos 42) sample
