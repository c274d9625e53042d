-- ===== src/Teams/Bootstrap/Repeat.antt =====
-- Members who are enrolled are written again, and nothing is added.
use inkspire_lorcana_develop.Prelude.{
  ℕ, suc, String, List, [], ◌∷◌, All, All-map, length, length-update_where, ok, ◌≡◌, refl, ◌∙◌,
  arith,
}
use inkspire_lorcana_develop.Teams.Tables.{Db, is_member, is_membership}
use inkspire_lorcana_develop.Teams.Repository.{
  renamed, update_member_name, with_role, ensure_active_membership,
}
use inkspire_lorcana_develop.Teams.Definition.{TeamBootstrapMember}
use inkspire_lorcana_develop.Teams.Bootstrap.{
  Progress, find_or_create, enroll, bootstrap_member, bootstrap_members,
}
use inkspire_lorcana_develop.Teams.Bootstrap.Kept.{
  Keeps, Keeps-trans, IsEnrolled, IsEnrolled-Keeps, with_roles, with_roles-Keeps,
}

-- The tables have the same rows in number, and the same links and accounts.
pub record SameRows (db after : Db) : Type 0 where
  pub links : after.member_playhub_links ≡ db.member_playhub_links
  pub accounts : after.discord_accounts ≡ db.discord_accounts
  pub members : length after.members ≡ length db.members
  pub teams : length after.teams ≡ length db.teams
  pub memberships : length after.team_memberships ≡ length db.team_memberships

module _ (uuid : ℕ → ℕ) (linked_by : String) (now t : ℕ) where
  -- Enrolled members are written again, and nothing is added.
  pub record Repeated (items : List TeamBootstrapMember) (p : Progress) : Type 0 where
    pub p' : Progress
    pub made : bootstrap_members uuid linked_by now t items p ≡ ok p'
    pub no_members : p'.created_members ≡ p.created_members
    pub no_memberships : p'.created_memberships ≡ p.created_memberships
    pub same : SameRows p.db p'.db

  repeat_step :
      (item : TeamBootstrapMember) (p : Progress) (e : IsEnrolled t p.db item)
      → bootstrap_member uuid linked_by now t item p
        ≡ ok (record p {
          calls = suc p.calls;
          db =
              with_roles e.membership.team_membership_id item.role
                (update_member_name e.member_id item.preferred_display_name now p.db);
        })
  unfolding bootstrap_member find_or_create enroll ensure_active_membership
  repeat_step item p e = ground (arith, e.linked, e.current)

  pub repeat_steps :
      (items : List TeamBootstrapMember) (p : Progress)
      → All (IsEnrolled t p.db) items
      → Repeated items p
  unfolding bootstrap_members
  repeat_steps [] p e = record {
    p' = p;
    made = refl;
    no_members = refl;
    no_memberships = refl;
    same = record {
      links = refl;
      accounts = refl;
      members = refl;
      teams = refl;
      memberships = refl;
    };
  }
  repeat_steps (item ∷ items) p e =
      let i = e.0.membership.team_membership_id in
      let db1 = update_member_name e.0.member_id item.preferred_display_name now p.db in
      let p1 : Progress = record p { calls = suc p.calls; db = with_roles i item.role db1 } in
      let kept : Keeps t p.db p1.db =
        Keeps-trans (record { links = λ q m f. f; current = λ m s f. (s, f); teams = refl })
          (with_roles-Keeps t i item.role db1) in
      let r =
        repeat_steps items p1
          (All-map (IsEnrolled t p.db) (IsEnrolled t p1.db) items (IsEnrolled-Keeps kept) e.1) in
      record {
        p' = r.p';
        made = ground (arith, repeat_step item p e.0, r.made);
        no_members = r.no_members;
        no_memberships = r.no_memberships;
        same = record {
          links = r.same.links;
          accounts = r.same.accounts;
          members =
              r.same.members
              ∙ length-update_where (is_member e.0.member_id)
                  (renamed item.preferred_display_name now) p.db.members;
          teams = r.same.teams;
          memberships =
              r.same.memberships
              ∙ length-update_where (is_membership i) (with_role item.role) p.db.team_memberships;
        };
      }
