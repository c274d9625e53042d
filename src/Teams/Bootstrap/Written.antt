-- ===== src/Teams/Bootstrap/Written.antt =====
-- A bootstrap that went through has linked and enrolled each member of its definition.
use inkspire_lorcana_develop.Prelude.{
  ℕ, Bool, true, false, String, List, [], ◌∷◌, All, find, find-append, Option-cases, none, some, ok,
  ok-injective, and_then-elim, ==_refl, ◌≡◌, refl, ap, subst, arith, inl, inr,
}
use inkspire_lorcana_develop.Teams.Tables.{Db, TeamMembership, is_current}
use inkspire_lorcana_develop.Teams.Repository.{
  member_id_for_playhub_player, create_member, update_member_name, link_playhub_player,
  new_membership, ensure_active_membership,
}
use inkspire_lorcana_develop.Teams.Definition.{TeamBootstrapMember}
use inkspire_lorcana_develop.Teams.Bootstrap.{
  Progress, create_linked, find_or_create, enroll, bootstrap_member, bootstrap_members,
}
use inkspire_lorcana_develop.Teams.Bootstrap.Ready.{with_member, with_link}
use inkspire_lorcana_develop.Teams.Bootstrap.Kept.{
  Keeps, Keeps-refl, Keeps-trans, IsEnrolled, IsEnrolled-Keeps, create_member-ok,
  link_playhub_player-ok, with_link-Keeps, with_link_found, with_member-Keeps, with_roles,
  with_roles-Keeps, with_row, with_row-Keeps,
}

module _ (uuid : ℕ → ℕ) (linked_by : String) (now t : ℕ) where
  abbrev HasMember : TeamBootstrapMember → Progress → ℕ × Progress → Type 0
  HasMember item p (m, p') =
      Keeps t p.db p'.db × (member_id_for_playhub_player item.playhub_player_id p'.db ≡ some m)

  create_linked-ok :
      (item : TeamBootstrapMember) (p : Progress) (r : ℕ × Progress)
      → member_id_for_playhub_player item.playhub_player_id p.db ≡ none
      → create_linked uuid linked_by now t item p ≡ ok r
      → HasMember item p r
  unfolding create_linked
  create_linked-ok item p r new e =
      let q = item.playhub_player_id in
      let m = uuid p.calls in
      let name = item.preferred_display_name in
      and_then-elim (create_member m name now p.db) e λ db1 made rest.
        and_then-elim (link_playhub_player m q now (some linked_by) db1) rest λ db2 joined done.
          let same1 = create_member-ok m name now p.db made in
          let new1 = subst (λ d. member_id_for_playhub_player q d ≡ none) same1 new in
          let same2 = link_playhub_player-ok m q now (some linked_by) db1 new1 joined in
          subst (HasMember item p) (ok-injective done) (
            subst (λ (d : Db). Keeps t p.db d × (member_id_for_playhub_player q d ≡ some m)) same2
              (
                subst (λ d. Keeps t p.db (with_link q m now (some linked_by) d)) same1
                    (Keeps-trans (with_member-Keeps t m name now p.db)
                      (with_link-Keeps t q m now (some linked_by) (with_member m name now p.db))),
                with_link_found q m now (some linked_by) db1 new1,
              ))

  find_or_create-ok :
      (item : TeamBootstrapMember) (p : Progress) (r : ℕ × Progress)
      → find_or_create uuid linked_by now t item p ≡ ok r
      → HasMember item p r
  unfolding find_or_create
  find_or_create-ok item p r e =
      let q = item.playhub_player_id in
      elim (Option-cases (member_id_for_playhub_player q p.db)) [
        | inr (k, there) ↦
            let renamed : ℕ × Progress =
              (k, record p { db = update_member_name k item.preferred_display_name now p.db }) in
            let same : ok renamed ≡ ok r = ground (arith, there, e) in
            subst (HasMember item p) (ok-injective same)
              (record { links = λ q m e. e; current = λ m s e. (s, e); teams = refl }, there)
        | inl new ↦ create_linked-ok item p r new (ground (arith, new, e))
      ]

  -- After a membership is ensured, the member has a current one.
  abbrev HasMembership : ℕ → Db → Bool × Db → Type 0
  HasMembership m db (added, after) =
      Keeps t db after
      × (s : TeamMembership) × (find (is_current t m) after.team_memberships ≡ some s)

  ensure_current :
      (i m : ℕ) (role : String) (db : Db) (r : Bool × Db)
      → ensure_active_membership i t m role now db ≡ ok r
      → HasMembership m db r
  unfolding ensure_active_membership
  ensure_current i m role db r e =
      let rows = db.team_memberships in
      elim (Option-cases (find (is_current t m) rows)) [
        | inr (s, there) ↦
            let same : ok (false, with_roles s.team_membership_id role db) ≡ ok r =
              ground (arith, there, e) in
            let keeps = with_roles-Keeps t s.team_membership_id role db in
            let (s', found) = keeps.current m s there in
            subst (HasMembership m db) (ok-injective same) (keeps, s', found)
        | inl new ↦
            let row = new_membership i t m role now in
            let same : ok (true, with_row row db) ≡ ok r = ground (arith, new, e) in
            subst (HasMembership m db) (ok-injective same) (
              with_row-Keeps t row db,
              row,
              ground (arith, new, find-append (is_current t m) rows row, ==_refl t, ==_refl m),
            )
      ]

  step-ok :
      (item : TeamBootstrapMember) (p : Progress) {r : Progress}
      → bootstrap_member uuid linked_by now t item p ≡ ok r
      → Keeps t p.db r.db × IsEnrolled t r.db item
  unfolding bootstrap_member enroll
  step-ok item p {r} e =
      and_then-elim (find_or_create uuid linked_by now t item p) e λ (m, p') made rest.
        and_then-elim (ensure_active_membership (uuid p'.calls) t m item.role now p'.db) rest
          λ (added, after) done last.
            let (kept, linked) = find_or_create-ok item p (m, p') made in
            let (keeps, s, current) =
              ensure_current (uuid p'.calls) m item.role p'.db (added, after) done in
            let same : after ≡ r.db = ap (λ (x : Progress). x.db) (ok-injective last) in
            subst (λ d. Keeps t p.db d × IsEnrolled t d item) same
              (
                Keeps-trans kept keeps,
                record {
                  member_id = m;
                  membership = s;
                  linked = keeps.links item.playhub_player_id m linked;
                  current = current;
                },
              )

  pub steps-ok :
      (items : List TeamBootstrapMember) (p : Progress) {r : Progress}
      → bootstrap_members uuid linked_by now t items p ≡ ok r
      → Keeps t p.db r.db × All (IsEnrolled t r.db) items
  unfolding bootstrap_members
  steps-ok [] p {r} e = (subst (λ x. Keeps t p.db x.db) (ok-injective e) (Keeps-refl t p.db), tt)
  steps-ok (item ∷ items) p {r} e =
      and_then-elim (bootstrap_member uuid linked_by now t item p) e λ p' first rest.
        let (kept, enrolled) = step-ok item p first in
        let (keeps, others) = steps-ok items p' rest in
        (Keeps-trans kept keeps, (IsEnrolled-Keeps keeps item enrolled, others))
