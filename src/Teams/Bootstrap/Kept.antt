-- ===== src/Teams/Bootstrap/Kept.antt =====
-- What a step of a bootstrap that went through leaves for a later one: links stay, and so do the teams and
-- the current memberships.
use inkspire_lorcana_develop.Prelude.{
  ℕ, String, [], ◌∷◌, ◌++◌, any, find, find-append, find-update_where, if◌then◌else◌, update_where,
  Option-cases, Bool-cases, Option, none, some, ok, ℤ, eqb_ℤ_refl, ◌≡◌, refl, ◌∙◌, arith,
}
use inkspire_lorcana_develop.Teams.Tables.{
  Db, TeamMembership, is_member, is_current, is_membership, is_player,
}
use inkspire_lorcana_develop.Teams.Repository.{
  member_id_for_playhub_player, create_member, new_link, link_playhub_player, with_role,
}
use inkspire_lorcana_develop.Teams.Definition.{TeamBootstrapMember}
use inkspire_lorcana_develop.Teams.Bootstrap.Ready.{with_member, with_link}

-- Links and current memberships that are there before are there after.
pub record Keeps (t : ℕ) (db after : Db) : Type 0 where
  pub links :
      (q : ℤ) (m : ℕ)
      → member_id_for_playhub_player q db ≡ some m
      → member_id_for_playhub_player q after ≡ some m
  pub current :
      (m : ℕ) (s : TeamMembership)
      → find (is_current t m) db.team_memberships ≡ some s
      → (s' : TeamMembership) × (find (is_current t m) after.team_memberships ≡ some s')
  pub teams : after.teams ≡ db.teams

pub Keeps-refl : (t : ℕ) (db : Db) → Keeps t db db
Keeps-refl t db = record { links = λ q m e. e; current = λ m s e. (s, e); teams = refl }

pub Keeps-trans : {t : ℕ} {a b c : Db} → Keeps t a b → Keeps t b c → Keeps t a c
Keeps-trans f g = record {
  links = λ q m e. g.links q m (f.links q m e);
  current = λ m s e. let (s', e') = f.current m s e in g.current m s' e';
  teams = g.teams ∙ f.teams;
}

-- The player is linked to a member of the team.
pub record IsEnrolled (t : ℕ) (db : Db) (item : TeamBootstrapMember) : Type 0 where
  pub member_id : ℕ
  pub membership : TeamMembership
  pub linked : member_id_for_playhub_player item.playhub_player_id db ≡ some member_id
  pub current : find (is_current t member_id) db.team_memberships ≡ some membership

pub IsEnrolled-Keeps :
    {t : ℕ} {db after : Db}
    → Keeps t db after
    → (item : TeamBootstrapMember) → IsEnrolled t db item
    → IsEnrolled t after item
IsEnrolled-Keeps k item e =
    let (s, found) = k.current e.member_id e.membership e.current in
    record {
      member_id = e.member_id;
      membership = s;
      linked = k.links item.playhub_player_id e.member_id e.linked;
      current = found;
    }

-- A member that was created, and a player that was linked to it.
pub create_member-ok :
    (m : ℕ) (name : String) (now : ℕ) (db : Db) {after : Db}
    → create_member m name now db ≡ ok after
    → with_member m name now db ≡ after
unfolding create_member
create_member-ok m name now db e = ground (arith, e, Bool-cases (any (is_member m) db.members))

pub link_playhub_player-ok :
    (m : ℕ) (q : ℤ) (now : ℕ) (by : Option String) (db : Db) {after : Db}
    → member_id_for_playhub_player q db ≡ none
    → link_playhub_player m q now by db ≡ ok after
    → with_link q m now by db ≡ after
unfolding link_playhub_player
link_playhub_player-ok m q now by db new e = ground (arith, new, e)

pub with_member-Keeps :
    (t m : ℕ) (name : String) (now : ℕ) (db : Db) → Keeps t db (with_member m name now db)
with_member-Keeps t m name now db = record {
  links = λ q m e. e;
  current = λ m s e. (s, e);
  teams = refl;
}

pub with_link-Keeps :
    (t : ℕ) (q : ℤ) (m now : ℕ) (by : Option String) (db : Db)
    → Keeps t db (with_link q m now by db)
with_link-Keeps t q m now by db = record {
  links = λ p k e. ground (
    arith,
    e,
    Option-cases (find (is_player p) db.member_playhub_links),
    find-append (is_player p) db.member_playhub_links (new_link q m now by db),
  );
  current = λ k s e. (s, e);
  teams = refl;
}

pub with_link_found :
    (q : ℤ) (m now : ℕ) (by : Option String) (db : Db)
    → member_id_for_playhub_player q db ≡ none
    → member_id_for_playhub_player q (with_link q m now by db) ≡ some m
with_link_found q m now by db new = ground (
  arith,
  new,
  eqb_ℤ_refl q,
  Option-cases (find (is_player q) db.member_playhub_links),
  find-append (is_player q) db.member_playhub_links (new_link q m now by db),
)

-- The memberships with a role rewritten, and with a new row.
abbrev pub with_roles : ℕ → String → Db → Db
with_roles i role db = record db {
  team_memberships = update_where (is_membership i) (with_role role) db.team_memberships;
}

pub with_roles-Keeps : (t i : ℕ) (role : String) (db : Db) → Keeps t db (with_roles i role db)
with_roles-Keeps t i role db = record {
  links = λ q m e. e;
  current = λ m s e. (
    if is_membership i s then with_role role s else s,
    ground (
      arith,
      e,
      find-update_where (is_current t m) (is_membership i) (with_role role) db.team_memberships
          (λ x. refl),
    ),
  );
  teams = refl;
}

abbrev pub with_row : TeamMembership → Db → Db
with_row s db = record db { team_memberships = db.team_memberships ++ s ∷ [] }

pub with_row-Keeps : (t : ℕ) (row : TeamMembership) (db : Db) → Keeps t db (with_row row db)
with_row-Keeps t row db = record {
  links = λ q m e. e;
  current = λ m s e. (s, ground (arith, e, find-append (is_current t m) db.team_memberships row));
  teams = refl;
}
