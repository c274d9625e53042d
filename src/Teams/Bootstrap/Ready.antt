-- ===== src/Teams/Bootstrap/Ready.antt =====
-- Tables whose rows fit together, and UUIDs that are new to them: how they are kept when a member is
-- created and linked.
use inkspire_lorcana_develop.Prelude.{
  ℕ, ◌≤◌, true, false, String, [], ◌∷◌, ◌++◌, any, any-append_old, any-append, find, find-append,
  Option, none, some, ℤ, eqb_ℤ, ◌≡◌, ◌≢◌, ◌⊎◌, inl, inr, sym, ap, ◌∙◌, arith, ==_iff, Option-cases,
}
use inkspire_lorcana_develop.Teams.Tables.{Db, is_member, is_membership, is_player}
use inkspire_lorcana_develop.Teams.Repository.{member_id_for_playhub_player, new_member, new_link}
use inkspire_lorcana_develop.Teams.Repository.Views.{UniqueIds}
use inkspire_lorcana_develop.Teams.Definition.WellFormed.{Differ}
use inkspire_lorcana_develop.Teams.Definition.{TeamBootstrapMember}

-- Links refer to members, no two players share one, and the ids of memberships are unique.
pub record IsConsistent (db : Db) : Type 0 where
  pub refers :
      (q : ℤ) (m : ℕ)
      → member_id_for_playhub_player q db ≡ some m
      → any (is_member m) db.members ≡ true
  pub single :
      (p q : ℤ) (m : ℕ)
      → member_id_for_playhub_player p db ≡ some m
      → member_id_for_playhub_player q db ≡ some m
      → eqb_ℤ p q ≡ true
  pub unique : UniqueIds db

-- From its n-th call on, the factory returns UUIDs that no member and no membership has.
abbrev pub IsFresh : (ℕ → ℕ) → ℕ → Db → Type 0
IsFresh uuid n db =
    (k : ℕ)
    → n ≤ k
    → (any (is_member (uuid k)) db.members ≡ false)
      × (any (is_membership (uuid k)) db.team_memberships ≡ false)

-- Different players are not linked to the same member.
pub apart :
    {db : Db}
    → IsConsistent db
    → (item x : TeamBootstrapMember) (m : ℕ)
    → member_id_for_playhub_player item.playhub_player_id db ≡ some m
    → Differ item x
    → (k : ℕ) → member_id_for_playhub_player x.playhub_player_id db ≡ some k
    → k ≢ m
apart consistent item x m e different k f same = ground (
  arith,
  different,
  consistent.single item.playhub_player_id x.playhub_player_id m e (f ∙ ap some same),
)

-- A player who is linked after a link was added was linked before, or is the player of the link.
link_origin :
    (q r : ℤ) (m k now : ℕ) (by : Option String) (db : Db)
    → member_id_for_playhub_player r (record db {
      member_playhub_links = db.member_playhub_links ++ new_link q m now by db ∷ [];
    })
      ≡ some k
    → (member_id_for_playhub_player r db ≡ some k)
      ⊎ ((member_id_for_playhub_player r db ≡ none) × (k ≡ m) × (eqb_ℤ q r ≡ true))
link_origin q r m k now by db f = ground (
  arith,
  f,
  find-append (is_player r) db.member_playhub_links (new_link q m now by db),
  Option-cases (find (is_player r) db.member_playhub_links),
)

eqb_ℤ_join : (q r s : ℤ) → eqb_ℤ q r ≡ true → eqb_ℤ q s ≡ true → eqb_ℤ r s ≡ true
eqb_ℤ_join q r s h k = ground arith

-- The tables with a new member, and with a link of the member.
abbrev pub with_member : ℕ → String → ℕ → Db → Db
with_member m name now db = record db { members = db.members ++ new_member m name now ∷ [] }

abbrev pub with_link : ℤ → ℕ → ℕ → Option String → Db → Db
with_link q m now by db = record db {
  member_playhub_links = db.member_playhub_links ++ new_link q m now by db ∷ [];
}

module _ (q : ℤ) (m now : ℕ) (name : String) (by : Option String) (db : Db)
    (consistent : IsConsistent db) (new : any (is_member m) db.members ≡ false) where
  -- A link that was there does not refer to the new member.
  old_other : (r : ℤ) (k : ℕ) → member_id_for_playhub_player r db ≡ some k → k ≢ m
  old_other r k f same =
      cc (consistent.refers r k f, new, ap (λ i. any (is_member i) db.members) same)

  pub new-IsConsistent : IsConsistent (with_link q m now by (with_member m name now db))
  new-IsConsistent = record {
    refers = λ r k f. elim (link_origin q r m k now by (with_member m name now db) f) [
      | inl old ↦ any-append_old (is_member k) db.members _ (consistent.refers r k old)
      | inr (_, same, _) ↦
          any-append (is_member k) db.members (new_member m name now) ((==_iff m k).1 (sym same))
    ];
    single = λ r s k f g. elim (link_origin q r m k now by (with_member m name now db) f) [
      | inl old ↦ elim (link_origin q s m k now by (with_member m name now db) g) [
        | inl other ↦ consistent.single r s k old other
        | inr (_, same, _) ↦ absurd (old_other r k old same)
      ]
      | inr (_, same, qr) ↦ elim (link_origin q s m k now by (with_member m name now db) g) [
        | inl other ↦ absurd (old_other s k other same)
        | inr (_, _, qs) ↦ eqb_ℤ_join q r s qr qs
      ]
    ];
    unique = consistent.unique;
  }

  pub new_apart :
      (r : ℤ)
      → eqb_ℤ q r ≡ false
      → (k : ℕ)
      → member_id_for_playhub_player r (with_link q m now by (with_member m name now db)) ≡ some k
      → k ≢ m
  new_apart r different k f = elim (link_origin q r m k now by (with_member m name now db) f) [
    | inl old ↦ old_other r k old
    | inr (_, _, qr) ↦ cc
  ]
