-- ===== src/Teams/Bootstrap/Ending.antt =====
-- How `TeamAdminService.bootstrap` ends on tables that fit together.
use inkspire_lorcana_develop.Prelude.{
  ℕ, zero, ◌+◌, false, String, str_eq_self, List, [], ◌∷◌, ◌++◌, All, any, find, length,
  find_updated, find_appended, any_of_found, Option-cases, update_where, subst, sym, some, ok,
  aware, ◌≡◌, refl, arith, inl, inr,
}
use inkspire_lorcana_develop.Teams.Tables.{Db, active, Team, is_team, has_slug}
use inkspire_lorcana_develop.Teams.Repository.{retitled, new_team, upsert_team}
use inkspire_lorcana_develop.Teams.Definition.WellFormed.{Distinct}
use inkspire_lorcana_develop.Teams.Definition.{TeamBootstrap}
use inkspire_lorcana_develop.Teams.Bootstrap.{
  Progress, TeamAdminService, TeamBootstrapResult, bootstrap_members, bootstrap_result, started,
  bootstrap,
}
use inkspire_lorcana_develop.Teams.Bootstrap.Ready.{IsConsistent, IsFresh}
use inkspire_lorcana_develop.Teams.Bootstrap.Find.{IsSettled}
use inkspire_lorcana_develop.Teams.Bootstrap.Steps.{steps}

-- The team of the slug: its id, its name, and that it is active.
pub record IsTeam (slug name : String) (team_id : ℕ) (rows : List Team) : Type 0 where
  pub team : Team
  pub found : find (has_slug slug) rows ≡ some team
  pub id_of : team.team_id ≡ team_id
  pub name_of : team.name ≡ name
  pub status_of : team.status ≡ active

record Upserted (i : ℕ) (slug name : String) (now : ℕ) (db : Db) : Type 0 where
  team_id : ℕ
  rows : List Team
  made : upsert_team i slug name now db ≡ ok (team_id, record db { teams = rows })
  is_team_of : IsTeam slug name team_id rows

upsert_team_lem :
    (i : ℕ) (slug name : String) (now : ℕ) (db : Db)
    → any (is_team i) db.teams ≡ false
    → Upserted i slug name now db
unfolding upsert_team
upsert_team_lem i slug name now db new = elim (Option-cases (find (has_slug slug) db.teams)) [
  | inl absent ↦ record {
    team_id = i;
    rows = db.teams ++ new_team i slug name now ∷ [];
    made = ground (arith, absent, new);
    is_team_of = record {
      team = new_team i slug name now;
      found =
          find_appended (has_slug slug) db.teams (new_team i slug name now) absent
            (str_eq_self slug);
      id_of = refl;
      name_of = refl;
      status_of = refl;
    };
  }
  | inr (old, present) ↦ record {
    team_id = old.team_id;
    rows = update_where (has_slug slug) (retitled name now) db.teams;
    made = ground (arith, present);
    is_team_of = record {
      team = retitled name now old;
      found = find_updated (has_slug slug) (retitled name now) db.teams (λ y. refl) present;
      id_of = refl;
      name_of = refl;
      status_of = refl;
    };
  }
]

-- What a bootstrap of a definition leaves.
pub record Settles (definition : TeamBootstrap) (db : Db) (r : TeamBootstrapResult) (after : Db)
    : Type 0 where
  pub consistent : IsConsistent after
  pub team : IsTeam definition.slug definition.name r.team_id after.teams
  pub settled : All (IsSettled r.team_id after) definition.members
  pub processed : r.members_processed ≡ length definition.members
  pub members : length after.members ≡ length db.members + r.members_created
  pub links : length after.member_playhub_links ≡ length db.member_playhub_links + r.members_created
  pub memberships :
      length after.team_memberships ≡ length db.team_memberships + r.memberships_created

-- The transaction commits if each of its statements succeeds.
pub bootstrap_commits :
    (service : TeamAdminService) (definition : TeamBootstrap) (linked_by : String) (now t : ℕ)
    (db tables : Db) (p : Progress)
    → service.clock ≡ aware now
    → upsert_team (service.uuid_factory zero) definition.slug definition.name now db
      ≡ ok (t, tables)
    → bootstrap_members service.uuid_factory linked_by now t definition.members (started tables)
      ≡ ok p
    → bootstrap service definition linked_by db ≡ (ok (bootstrap_result definition t p), p.db)
unfolding bootstrap
bootstrap_commits service definition linked_by now t db tables p clock team made =
    ground (arith, clock, team, made)

-- On tables whose links refer to members, with one player for a member and unique membership ids,
-- with an aware clock, and with UUIDs that are distinct and new to the tables, a bootstrap of a
-- definition that names no player twice succeeds. It leaves the team of the slug active under the
-- definition's name, links each player of the definition to a member with the name that the
-- definition gives and with the role in the team that it gives, keeps the tables so, and its
-- counters are the number of rows that the tables of members, of links and of memberships have
-- grown by.
pub bootstrap-Settles :
    (service : TeamAdminService) (definition : TeamBootstrap) (linked_by : String) (now : ℕ)
    (db : Db)
    → service.clock ≡ aware now
    → IsConsistent db
    → ((j k : ℕ) → service.uuid_factory j ≡ service.uuid_factory k → j ≡ k)
    → IsFresh service.uuid_factory zero db
    → any (is_team (service.uuid_factory zero)) db.teams ≡ false
    → Distinct definition.members
    → (r : TeamBootstrapResult) × (after : Db) × (bootstrap service definition linked_by db
        ≡ (ok r, after))
      × Settles definition db r after
unfolding bootstrap
bootstrap-Settles service definition linked_by now db clock consistent distinct fresh team once =
    let u =
      upsert_team_lem (service.uuid_factory zero) definition.slug definition.name now db team in
    let t = u.is_team_of in
    let f =
      steps service.uuid_factory linked_by now u.team_id distinct definition.members
        (started (record db { teams = u.rows }))
        (record {
          consistent = record {
            refers = consistent.refers;
            single = consistent.single;
            unique = consistent.unique;
          };
          fresh = λ k le. fresh k (omega arith);
          team =
              any_of_found (has_slug definition.slug) (is_team u.team_id) u.rows t.found
                (ground (arith, t.id_of));
        })
        once in
    (
      bootstrap_result definition u.team_id f.p',
      f.p'.db,
      bootstrap_commits service definition linked_by now u.team_id db _ f.p' clock u.made f.made,
      record {
        consistent = f.ready.consistent;
        team = subst (IsTeam definition.slug definition.name u.team_id) (sym f.teams) t;
        settled = f.settled;
        processed = refl;
        members = omega (arith, f.grown.0);
        links = omega (arith, f.grown.1);
        memberships = omega (arith, f.grown.2);
      },
    )
