-- ===== src/Teams/Bootstrap/Again.antt =====
-- A bootstrap of a definition that was bootstrapped before.
use inkspire_lorcana_develop.Prelude.{
  ℕ, zero, String, str_eq_self, [], ◌∷◌, ◌++◌, All-map, length-update_where, find, find_updated,
  find_appended, Option-cases, Result-cases, update_where, to_utc, some, Result, ok, ok-injective,
  aware, ◌≡◌, refl, sym, ap, ◌∙◌, subst, arith, inl, inr,
}
use inkspire_lorcana_develop.Teams.Tables.{Db, Team, has_slug}
use inkspire_lorcana_develop.Teams.Repository.{retitled, new_team, upsert_team}
use inkspire_lorcana_develop.Teams.Definition.{TeamBootstrap}
use inkspire_lorcana_develop.Teams.Bootstrap.{
  Progress, bootstrap_members, TeamAdminService, TeamBootstrapResult, bootstrap_result, started,
  bootstrap,
}
use inkspire_lorcana_develop.Teams.Bootstrap.Ending.{bootstrap_commits}
use inkspire_lorcana_develop.Teams.Bootstrap.Written.{steps-ok}
use inkspire_lorcana_develop.Teams.Bootstrap.Repeat.{SameRows, repeat_steps}
use inkspire_lorcana_develop.Teams.Bootstrap.Kept.{IsEnrolled}

-- The statements of a bootstrap that returned.
record Committed (service : TeamAdminService) (definition : TeamBootstrap) (linked_by : String)
    (db : Db) (r : TeamBootstrapResult) (after : Db) : Type 0 where
  now : ℕ
  team_id : ℕ
  tables : Db
  p : Progress
  written :
      upsert_team (service.uuid_factory zero) definition.slug definition.name now db
      ≡ ok (team_id, tables)
  made :
      bootstrap_members service.uuid_factory linked_by now team_id definition.members
        (started tables)
      ≡ ok p
  result : bootstrap_result definition team_id p ≡ r
  left : p.db ≡ after

bootstrap-ok :
    (service : TeamAdminService) (definition : TeamBootstrap) (linked_by : String) (db : Db)
    {r : TeamBootstrapResult} {after : Db}
    → bootstrap service definition linked_by db ≡ (ok r, after)
    → Committed service definition linked_by db r after
unfolding bootstrap
bootstrap-ok service definition linked_by db {r} {after} e =
    elim (Result-cases (to_utc service.clock)) [
      | inr (x, broken) ↦ absurd (ground (arith, broken, e))
      | inl (now, clock) ↦
          elim (Result-cases
            (upsert_team (service.uuid_factory zero) definition.slug definition.name now db)) [
              | inr (x, refused) ↦ absurd (ground (arith, clock, refused, e))
              | inl ((t, tables), written) ↦
                  elim (Result-cases (
                    bootstrap_members service.uuid_factory linked_by now t definition.members
                      (started tables))) [
                        | inr (x, raised) ↦ absurd (ground (arith, clock, written, raised, e))
                        | inl (p, made) ↦
                            let same : (ok (bootstrap_result definition t p), p.db)
                                ≡ (ok r, after) =
                              ground (arith, clock, written, made, e) in
                            record {
                              now = now;
                              team_id = t;
                              tables = tables;
                              p = p;
                              written = written;
                              made = made;
                              result =
                                  ok-injective
                                    (ap (λ (x : Result TeamBootstrapResult × Db). x.0) same);
                              left = ap (λ (x : Result TeamBootstrapResult × Db). x.1) same;
                            }
                      ]
            ]
    ]

-- The team of the slug after an upsert has the id that the upsert returns.
abbrev HasTeam : String → ℕ × Db → Type 0
HasTeam slug (i, db) =
    (team : Team) × (find (has_slug slug) db.teams ≡ some team) × (team.team_id ≡ i)

upsert_team-ok :
    (i : ℕ) (slug name : String) (now : ℕ) (db : Db) (r : ℕ × Db)
    → upsert_team i slug name now db ≡ ok r
    → HasTeam slug r
unfolding upsert_team
upsert_team-ok i slug name now db r e = elim (Option-cases (find (has_slug slug) db.teams)) [
  | inl absent ↦
      let row = new_team i slug name now in
      let added : Db = record db { teams = db.teams ++ row ∷ [] } in
      let same : ok (i, added) ≡ ok r = ground (arith, absent, e) in
      subst (HasTeam slug) (ok-injective same)
        (row, find_appended (has_slug slug) db.teams row absent (str_eq_self slug), refl)
  | inr (old, present) ↦
      let renewed : Db = record db {
        teams = update_where (has_slug slug) (retitled name now) db.teams;
      } in
      let same : ok (old.team_id, renewed) ≡ ok r = ground (arith, present, e) in
      subst (HasTeam slug) (ok-injective same) (
        retitled name now old,
        find_updated (has_slug slug) (retitled name now) db.teams (λ y. refl) present,
        refl,
      )
]

upsert_team_again :
    (i : ℕ) (slug name : String) (now : ℕ) (db : Db) (team : Team)
    → find (has_slug slug) db.teams ≡ some team
    → upsert_team i slug name now db
      ≡ ok (
        team.team_id,
        record db { teams = update_where (has_slug slug) (retitled name now) db.teams },
      )
unfolding upsert_team
upsert_team_again i slug name now db team found = ground (arith, found)

-- The bootstrap of a definition that was written creates nothing.
abbrev IsRepeated : TeamAdminService → TeamBootstrap → String → TeamBootstrapResult → Db → Type 0
IsRepeated service definition linker r after =
    (last : Db) × (bootstrap service definition linker after
      ≡ (ok (record r { members_created = 0; memberships_created = 0 }), last))
    × SameRows after last

repeated :
    (first second : TeamAdminService) (definition : TeamBootstrap) (linked_by linker : String)
    (later now t : ℕ) (db tables : Db) (p : Progress)
    → upsert_team (first.uuid_factory zero) definition.slug definition.name now db ≡ ok (t, tables)
    → bootstrap_members first.uuid_factory linked_by now t definition.members (started tables)
      ≡ ok p
    → second.clock ≡ aware later
    → IsRepeated second definition linker (bootstrap_result definition t p) p.db
repeated first second definition linked_by linker later now t db tables p written made clock =
    let slug = definition.slug in
    let (team, found, id_of) =
      upsert_team-ok (first.uuid_factory zero) slug definition.name now db (t, tables) written in
    let (kept, enrolled) =
      steps-ok first.uuid_factory linked_by now t definition.members (started tables) made in
    let there = subst (λ rows. find (has_slug slug) rows ≡ some team) (sym kept.teams) found in
    let renewed : Db = record p.db {
      teams = update_where (has_slug slug) (retitled definition.name later) p.db.teams;
    } in
    let upserted : upsert_team (second.uuid_factory zero) slug definition.name later p.db
        ≡ ok (t, renewed) =
      upsert_team_again (second.uuid_factory zero) slug definition.name later p.db team there
      ∙ ap (λ i. ok (i, renewed)) id_of in
    let again =
      repeat_steps second.uuid_factory linker later t definition.members (started renewed) (
        All-map (IsEnrolled t p.db) (IsEnrolled t renewed) definition.members
          (λ item e. record {
            member_id = e.member_id;
            membership = e.membership;
            linked = e.linked;
            current = e.current;
          })
          enrolled) in
    let nothing : bootstrap_result definition t again.p'
        ≡ record (bootstrap_result definition t p) {
          members_created = 0;
          memberships_created = 0;
        } =
      ground (arith, again.no_members, again.no_memberships) in
    (
      again.p'.db,
      bootstrap_commits second definition linker later t p.db renewed again.p' clock upserted
            again.made
          ∙ ap (λ x. (ok x, again.p'.db)) nothing,
      record {
        links = again.same.links;
        accounts = again.same.accounts;
        members = again.same.members;
        teams =
            again.same.teams
            ∙ length-update_where (has_slug slug) (retitled definition.name later) p.db.teams;
        memberships = again.same.memberships;
      },
    )

-- After a bootstrap that returned, a bootstrap of the same definition at an aware time, with
-- whatever UUIDs, returns the same team and creates no member and no membership; it leaves the
-- links and the Discord accounts as they are, and the other tables with as many rows as before.
pub bootstrap_again :
    (first second : TeamAdminService) (definition : TeamBootstrap) (linked_by linker : String)
    (later : ℕ) (db : Db) {r : TeamBootstrapResult} {after : Db}
    → bootstrap first definition linked_by db ≡ (ok r, after)
    → second.clock ≡ aware later
    → (last : Db) × (bootstrap second definition linker after
        ≡ (ok (record r { members_created = 0; memberships_created = 0 }), last))
      × SameRows after last
bootstrap_again first second definition linked_by linker later db {r} {after} e clock =
    let c = bootstrap-ok first definition linked_by db e in
    subst (IsRepeated second definition linker r) c.left (
      subst (λ x. IsRepeated second definition linker x c.p.db) c.result
        (repeated first second definition linked_by linker later c.now c.team_id db c.tables c.p
          c.written c.made clock))
