-- ===== src/Teams/Bootstrap/Steps.antt =====
-- The loop over the definition's members, on tables that fit together.
use inkspire_lorcana_develop.Prelude.{
  ℕ, suc, if◌then◌else◌, String, List, [], ◌∷◌, All, ok, ◌≡◌, refl, ◌∙◌, arith, Option-cases, inl,
  inr,
}
use inkspire_lorcana_develop.Teams.Repository.{member_id_for_playhub_player}
use inkspire_lorcana_develop.Teams.Repository.Views.{ensure_active_membership_lem}
use inkspire_lorcana_develop.Teams.Definition.WellFormed.{Distinct}
use inkspire_lorcana_develop.Teams.Definition.WellFormed.{Differ}
use inkspire_lorcana_develop.Teams.Definition.{TeamBootstrapMember}
use inkspire_lorcana_develop.Teams.Bootstrap.Find.{
  IsSettled, Counted, IsReady, Found, Found-old, Found-new,
}
use inkspire_lorcana_develop.Teams.Bootstrap.{Progress, enroll, bootstrap_member, bootstrap_members}

module _ (uuid : ℕ → ℕ) (linked_by : String) (now t : ℕ)
    (distinct : (j k : ℕ) → uuid j ≡ uuid k → j ≡ k) where
  abbrev Ready : Progress → Type 0
  Ready = IsReady uuid linked_by now t distinct

  -- One item is written: its player is settled, and the other players stay settled.
  record Stepped (item : TeamBootstrapMember) (p : Progress) : Type 0 where
    p' : Progress
    made : bootstrap_member uuid linked_by now t item p ≡ ok p'
    ready : Ready p'
    settled : IsSettled t p'.db item
    others : (x : TeamBootstrapMember) → Differ item x → IsSettled t p.db x → IsSettled t p'.db x
    teams : p'.db.teams ≡ p.db.teams
    grown : Counted p p'

  enroll-Found :
      (item : TeamBootstrapMember) (p : Progress)
      → Found uuid linked_by now t distinct item p
      → Stepped item p
  unfolding bootstrap_member enroll
  enroll-Found item p f =
      let q = f.p' in
      let (added, rows, e) =
        ensure_active_membership_lem (uuid q.calls) t f.m item.role now q.db
          f.ready.consistent.unique (f.ready.fresh q.calls (omega arith)).1 f.ready.team f.exists in
      record {
        p' = record q {
          calls = suc q.calls;
          created_memberships = if added then suc q.created_memberships else q.created_memberships;
          db = record q.db { team_memberships = rows };
        };
        made = ground (arith, f.made, e.made);
        ready = record {
          consistent = record {
            refers = f.ready.consistent.refers;
            single = f.ready.consistent.single;
            unique = e.unique;
          };
          fresh = λ k le. (
            (f.ready.fresh k (omega arith)).0,
            e.fresh (uuid k) (λ same. absurd (omega (arith, distinct k q.calls same)))
                ∙ (f.ready.fresh k (omega arith)).1,
          );
          team = f.ready.team;
        };
        settled = record {
          member_id = f.m;
          linked = f.linked;
          named = f.named;
          enrolled = e.enrolled;
        };
        others = λ x different before.
            let (s, other) = f.others x different before in
            record {
              member_id = s.member_id;
              linked = s.linked;
              named = s.named;
              enrolled = e.kept s.member_id (other s.member_id s.linked) ∙ s.enrolled;
            };
        teams = f.teams;
        grown = (f.grown.0, f.grown.1, ground (arith, f.grown.2, e.grown));
      }

  step : (item : TeamBootstrapMember) (p : Progress) → Ready p → Stepped item p
  step item p ready =
      elim (Option-cases (member_id_for_playhub_player item.playhub_player_id p.db)) [
        | inl e ↦ enroll-Found item p (Found-new uuid linked_by now t distinct item p ready e)
        | inr (m, e) ↦
            enroll-Found item p (Found-old uuid linked_by now t distinct item p m ready e)
      ]

  -- All items are written.
  pub record Finished (items : List TeamBootstrapMember) (p : Progress) : Type 0 where
    pub p' : Progress
    pub made : bootstrap_members uuid linked_by now t items p ≡ ok p'
    pub ready : Ready p'
    pub settled : All (IsSettled t p'.db) items
    pub others :
        (x : TeamBootstrapMember)
        → All (λ y. Differ y x) items
        → IsSettled t p.db x
        → IsSettled t p'.db x
    pub teams : p'.db.teams ≡ p.db.teams
    pub grown : Counted p p'

  pub steps :
      (items : List TeamBootstrapMember) (p : Progress)
      → Ready p
      → Distinct items
      → Finished items p
  unfolding bootstrap_members
  steps [] p ready d = record {
    p' = p;
    made = refl;
    ready = ready;
    settled = tt;
    others = λ x _ s. s;
    teams = refl;
    grown = (refl, refl, refl);
  }
  steps (item ∷ items) p ready d =
      let s = step item p ready in
      let r = steps items s.p' s.ready d.1 in
      record {
        p' = r.p';
        made = ground (arith, s.made, r.made);
        ready = r.ready;
        settled = (r.others item d.0 s.settled, r.settled);
        others = λ x different before. r.others x different.1 (s.others x different.0 before);
        teams = r.teams ∙ s.teams;
        grown = (
          omega (arith, s.grown.0, r.grown.0),
          omega (arith, s.grown.1, r.grown.1),
          omega (arith, s.grown.2, r.grown.2),
        );
      }
