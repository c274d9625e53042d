-- ===== src/Teams/Repository/Views.antt =====
-- What a caller reads of the tables, under each statement: the member a player is linked to, a member's
-- name, and the member's role in a team.
use inkspire_lorcana_develop.Prelude.{
  ℕ, ◌+◌, Bool, true, false, if◌then◌else◌, String, List, [], ◌∷◌, ◌++◌, any, find, count_where,
  update_where, length, length-append, length-update_where, count_where-append,
  count_where-update_where, any-append, any-update_where, ==_refl, ◌≢◌, eqb_ℤ_refl, any_absent,
  count_absent, any-append_new, find-update_where, find-append, find_absent, find_present,
  find_meets, find_same, Option, none, some, ℤ, eqb_ℤ, ok, ◌≡◌, ◌≤◌, refl, arith, Option-cases,
  Bool-cases, inl, inr,
}
use inkspire_lorcana_develop.Teams.Tables.{
  Db, TeamMembership, is_member, is_team, is_membership, is_current, is_player, is_primary_of,
}
use inkspire_lorcana_develop.Teams.Repository.{
  member_id_for_playhub_player, new_member, create_member, renamed, update_member_name, new_link,
  link_playhub_player, new_membership, with_role, ensure_active_membership,
}

abbrev pub name_of : ℕ → Db → Option String
name_of m db = elim (find (is_member m) db.members) [
  | none ↦ none
  | some r ↦ some r.preferred_display_name
]

abbrev pub role_of : ℕ → ℕ → Db → Option String
role_of t m db = elim (find (is_current t m) db.team_memberships) [
  | none ↦ none
  | some s ↦ some s.role
]

-- A rename is read back, and leaves the other names.
pub name_renamed :
    (m : ℕ) (name : String) (now : ℕ) (db : Db)
    → any (is_member m) db.members ≡ true
    → name_of m (update_member_name m name now db) ≡ some name
name_renamed m name now db there =
    let (r, found) = find_present (is_member m) db.members there in
    ground (
      arith,
      found,
      find_meets (is_member m) db.members found,
      find-update_where (is_member m) (is_member m) (renamed name now) db.members (λ x. refl),
    )

pub name_kept :
    (m k : ℕ) (name : String) (now : ℕ) (db : Db)
    → k ≢ m
    → name_of k (update_member_name m name now db) ≡ name_of k db
name_kept m k name now db other =
    let e =
      find-update_where (is_member k) (is_member m) (renamed name now) db.members (λ x. refl) in
    elim (Option-cases (find (is_member k) db.members)) [
      | inl absent ↦ ground (arith, absent, e)
      | inr (r, found) ↦ ground (arith, found, find_meets (is_member k) db.members found, other, e)
    ]

pub renamed_exists :
    (m : ℕ) (name : String) (now k : ℕ) (db : Db)
    → any (is_member k) (update_member_name m name now db).members ≡ any (is_member k) db.members
renamed_exists m name now k db =
    any-update_where (is_member k) (is_member m) _ db.members (λ x. refl)

-- A member under a new id is created, with its name.
pub record Created (m : ℕ) (name : String) (now : ℕ) (db : Db) (after : Db) : Type 0 where
  pub made : create_member m name now db ≡ ok after
  pub named : name_of m after ≡ some name
  pub kept : (k : ℕ) → k ≢ m → name_of k after ≡ name_of k db
  pub exists : any (is_member m) after.members ≡ true
  pub grown : length after.members ≡ length db.members + 1

pub create_member_new :
    (m : ℕ) (name : String) (now : ℕ) (db : Db)
    → any (is_member m) db.members ≡ false
    → Created m name now db (record db { members = db.members ++ new_member m name now ∷ [] })
unfolding create_member
create_member_new m name now db new = record {
  made = ground (arith, new);
  named = ground (
    arith,
    find_absent (is_member m) db.members new,
    find-append (is_member m) db.members (new_member m name now),
  );
  kept = λ k other. ground (
    arith,
    other,
    find-append (is_member k) db.members (new_member m name now),
    Option-cases (find (is_member k) db.members),
  );
  exists = any-append (is_member m) db.members (new_member m name now) (==_refl m);
  grown = omega (arith, length-append db.members (new_member m name now ∷ []));
}

-- A player without a link is linked to an existing member.
pub record Linked (m : ℕ) (q : ℤ) (now : ℕ) (by : Option String) (db after : Db) : Type 0 where
  pub made : link_playhub_player m q now by db ≡ ok after
  pub linked : member_id_for_playhub_player q after ≡ some m
  pub kept :
      (p : ℤ)
      → eqb_ℤ q p ≡ false
      → member_id_for_playhub_player p after ≡ member_id_for_playhub_player p db
  pub stays :
      (p : ℤ) (k : ℕ)
      → member_id_for_playhub_player p db ≡ some k
      → member_id_for_playhub_player p after ≡ some k
  pub grown : length after.member_playhub_links ≡ length db.member_playhub_links + 1

pub link_playhub_player_new :
    (m : ℕ) (q : ℤ) (now : ℕ) (by : Option String) (db : Db)
    → member_id_for_playhub_player q db ≡ none
    → any (is_member m) db.members ≡ true
    → Linked m q now by db (record db {
      member_playhub_links = db.member_playhub_links ++ new_link q m now by db ∷ [];
    })
unfolding link_playhub_player
link_playhub_player_new m q now by db new there =
    let links = db.member_playhub_links in
    let link = new_link q m now by db in
    let found = λ (p : ℤ). find-append (is_player p) links link in
    elim (Option-cases (find (is_player q) links)) [
      | inr (l, present) ↦ absurd (ground (arith, new, present))
      | inl absent ↦ record {
        made = ground (
          arith,
          absent,
          there,
          any_absent (is_player q) links,
          Bool-cases (any (is_primary_of m) links),
        );
        linked = ground (arith, absent, found q, eqb_ℤ_refl q);
        kept = λ p other. ground (arith, other, found p, Option-cases (find (is_player p) links));
        stays = λ p k e. ground (arith, e, found p, Option-cases (find (is_player p) links));
        grown = omega (arith, length-append links (link ∷ []));
      }
    ]

-- A member of a team has a role in it after the call, and the other members keep theirs.
abbrev pub UniqueIds : Db → Type 0
UniqueIds db = (i : ℕ) → count_where (is_membership i) db.team_memberships ≤ 1

pub record Enrolled (i t m : ℕ) (role : String) (now : ℕ) (db : Db) (added : Bool)
    (rows : List TeamMembership) : Type 0 where
  pub made :
      ensure_active_membership i t m role now db ≡ ok (added, record db { team_memberships = rows })
  pub enrolled : role_of t m (record db { team_memberships = rows }) ≡ some role
  pub kept : (k : ℕ) → k ≢ m → role_of t k (record db { team_memberships = rows }) ≡ role_of t k db
  pub unique : UniqueIds (record db { team_memberships = rows })
  pub fresh :
      (j : ℕ) → j ≢ i → any (is_membership j) rows ≡ any (is_membership j) db.team_memberships
  pub grown :
      length rows ≡ (if added then length db.team_memberships + 1 else length db.team_memberships)

current_member : (t k : ℕ) (s : TeamMembership) → is_current t k s ≡ true → s.member_id ≡ k
current_member t k s h = ground arith

ensure_present :
    (i t m : ℕ) (role : String) (now : ℕ) (db : Db) (s : TeamMembership)
    → UniqueIds db
    → find (is_current t m) db.team_memberships ≡ some s
    → Enrolled i t m role now db false
        (update_where (is_membership s.team_membership_id) (with_role role) db.team_memberships)
unfolding ensure_active_membership
ensure_present i t m role now db s unique present =
    let rows = db.team_memberships in
    let id = s.team_membership_id in
    let found = λ (k : ℕ).
      find-update_where (is_current t k) (is_membership id) (with_role role) rows (λ x. refl) in
    record {
      made = ground (arith, present);
      enrolled = ground (arith, present, found m, ==_refl id);
      kept = λ k other. elim (Option-cases (find (is_current t k) rows)) [
        | inl absent ↦ ground (arith, absent, found k)
        | inr (r, there) ↦ ground (
          arith,
          there,
          found k,
          other,
          current_member t k r (find_meets _ rows there),
          current_member t m s (find_meets _ rows present),
          find_same (is_membership id) (is_current t k) (is_current t m) rows {x = r} {y = s}
              (unique id) there,
          ==_refl id,
        )
      ];
      unique = λ j. omega (
        arith,
        unique j,
        count_where-update_where (is_membership j) (is_membership id) (with_role role) rows
            (λ x. refl),
      );
      fresh = λ j other. any-update_where (is_membership j) (is_membership id) _ rows (λ x. refl);
      grown = length-update_where (is_membership id) (with_role role) rows;
    }

ensure_absent :
    (i t m : ℕ) (role : String) (now : ℕ) (db : Db)
    → UniqueIds db
    → find (is_current t m) db.team_memberships ≡ none
    → any (is_membership i) db.team_memberships ≡ false
    → any (is_team t) db.teams ≡ true
    → any (is_member m) db.members ≡ true
    → Enrolled i t m role now db true (db.team_memberships ++ new_membership i t m role now ∷ [])
unfolding ensure_active_membership
ensure_absent i t m role now db unique absent fresh team there =
    let rows = db.team_memberships in
    let s = new_membership i t m role now in
    let found = λ (k : ℕ). find-append (is_current t k) rows s in
    record {
      made = ground (arith, absent, fresh, team, there, any_absent (is_current t m) rows);
      enrolled = ground (arith, absent, found m, ==_refl t, ==_refl m);
      kept = λ k other. ground (arith, other, found k, Option-cases (find (is_current t k) rows));
      unique = λ j. ground (
        arith,
        unique j,
        count_where-append (is_membership j) rows (s ∷ []),
        count_absent (is_membership j) rows,
        fresh,
      );
      fresh = λ j other. any-append_new (is_membership j) rows s (ground (arith, other));
      grown = omega (arith, length-append rows (s ∷ []));
    }

pub ensure_active_membership_lem :
    (i t m : ℕ) (role : String) (now : ℕ) (db : Db)
    → UniqueIds db
    → any (is_membership i) db.team_memberships ≡ false
    → any (is_team t) db.teams ≡ true
    → any (is_member m) db.members ≡ true
    → (added : Bool) × (rows : List TeamMembership) × Enrolled i t m role now db added rows
ensure_active_membership_lem i t m role now db unique fresh team there =
    elim (Option-cases (find (is_current t m) db.team_memberships)) [
      | inl absent ↦ (true, _, ensure_absent i t m role now db unique absent fresh team there)
      | inr (s, present) ↦ (false, _, ensure_present i t m role now db s unique present)
    ]
