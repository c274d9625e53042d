-- ===== src/Teams/Identity/Linked.antt =====
-- Linking a Discord account to the member of a Play Hub player.
use inkspire_lorcana_develop.Prelude.{
  ℕ, Bool, true, false, List, [], ◌∷◌, any, find, find_meets, any_of_found, Option, none, some, ℤ,
  pos, eqb_ℤ, eqb_ℤ_refl, ltb_ℤ, ==_iff, ok, err, Error, value_error, identity_admin_error,
  Datetime, naive, aware, ◌≡◌, ◌⊎◌, inl, inr, refl, sym, ap, ◌∙◌, arith, Bool-cases, Option-cases,
  and-true,
}
use inkspire_lorcana_develop.PlayHub.Tables.{upsert}
use inkspire_lorcana_develop.PlayHub.Facts.Keeps.{find-upsert}
use inkspire_lorcana_develop.Teams.Tables.{Db, DiscordAccount, is_member, is_user}
use inkspire_lorcana_develop.Teams.Identity.{
  MemberIdentity, is_active_member, active_member, member_for_discord_user,
  member_for_playhub_player, relinked, link_discord_account, link_discord_for_playhub_player,
}

-- A search that does not meet what an upsert writes.
find-upsert_other {ℓ} :
    {A : Type ℓ} (p same : A → Bool) (merge : A → A) (new : A) (xs : List A)
    → p new ≡ false
    → ((x : A) → same x ≡ true → p x ≡ false)
    → ((x : A) → p (merge x) ≡ p x)
    → find p (upsert same merge new xs) ≡ find p xs
find-upsert_other p same merge new [] h other keeps = rw h refl
find-upsert_other p same merge new (x ∷ xs) h other keeps = elim (Bool-cases (same x)) [
  | inl here ↦ ground (arith, here, other x, keeps x)
  | inr there ↦ ground (arith, there, find-upsert_other p same merge new xs h other keeps)
]

apart :
    (user_id other : ℤ) (x : DiscordAccount)
    → eqb_ℤ user_id other ≡ false
    → is_user user_id x ≡ true
    → is_user other x ≡ false
apart user_id other x different same = ground (arith, different, same)

-- A member that is found is in the table, and is found again by its own id.
record IsActive (row : MemberIdentity) (db : Db) : Type 0 where
  exists : any (is_member row.member_id) db.members ≡ true
  again : active_member (some row.member_id) db ≡ some row

active_member-IsActive :
    (o : Option ℕ) (db : Db) {row : MemberIdentity}
    → active_member o db ≡ some row
    → IsActive row db
active_member-IsActive none db e = cc
active_member-IsActive (some i) db {row} e =
    elim (Option-cases (find (is_active_member i) db.members)) [
      | inl absent ↦ absurd (ground (arith, absent, e))
      | inr (m, found) ↦
          let same_id : m.member_id ≡ i =
            (==_iff m.member_id i).0
              (and-true _ _ (find_meets (is_active_member i) db.members found)).0 in
          let id_of : row.member_id ≡ m.member_id = ground (arith, found, e) in
          record {
            exists =
                any_of_found (is_active_member i) (is_member row.member_id) db.members found
                  ((==_iff m.member_id row.member_id).1 (sym id_of));
            again = ap (λ k. active_member (some k) db) (id_of ∙ same_id) ∙ e;
          }
    ]

player-IsActive :
    (player_id : ℤ) (db : Db) {row : MemberIdentity}
    → member_for_playhub_player player_id db ≡ some row
    → IsActive row db
unfolding member_for_playhub_player
player-IsActive player_id db e = active_member-IsActive _ db e

-- What a link that was made leaves.
pub record Linked (player_id user_id : ℤ) (row : MemberIdentity) (db after : Db) : Type 0 where
  pub of_player : member_for_playhub_player player_id db ≡ some row
  pub of_user : member_for_discord_user user_id after ≡ some row
  pub others :
      (other : ℤ)
      → eqb_ℤ user_id other ≡ false
      → member_for_discord_user other after ≡ member_for_discord_user other db
  pub players :
      (other : ℤ) → member_for_playhub_player other after ≡ member_for_playhub_player other db

abbrev linked_accounts : ℤ → MemberIdentity → ℕ → Db → Db
linked_accounts user_id row now db = record db {
  discord_accounts =
      upsert (is_user user_id) (relinked row.member_id now)
        (record { discord_user_id = user_id; member_id = row.member_id; linked_at = now })
        db.discord_accounts;
}

same_members :
    (user_id : ℤ) (row : MemberIdentity) (now : ℕ) (db : Db) (o : Option ℕ)
    → active_member o (linked_accounts user_id row now db) ≡ active_member o db
same_members user_id row now db none = refl
same_members user_id row now db (some i) = refl

linked :
    (player_id user_id : ℤ) (row : MemberIdentity) (now : ℕ) (db : Db)
    → member_for_playhub_player player_id db ≡ some row
    → IsActive row db
    → Linked player_id user_id row db (linked_accounts user_id row now db)
unfolding member_for_discord_user member_for_playhub_player
linked player_id user_id row now db of_player a =
    let new : DiscordAccount = record {
      discord_user_id = user_id;
      member_id = row.member_id;
      linked_at = now;
    } in
    record {
      of_player = of_player;
      of_user = ground (
        arith,
        a.again,
        Option-cases (find (is_user user_id) db.discord_accounts),
        find-upsert (is_user user_id) (relinked row.member_id now) new db.discord_accounts
            (eqb_ℤ_refl user_id) (λ x. refl),
      );
      others = λ other different. ground (
        arith,
        find-upsert_other (is_user other) (is_user user_id) (relinked row.member_id now) new
            db.discord_accounts different (λ x same. apart user_id other x different same)
            (λ x. refl),
      );
      players = λ other. same_members user_id row now db _;
    }

-- Why a call was refused.
pub data Refused (clock : Datetime) (player_id user_id : ℤ) (db : Db) : Error → Type 0 where
  no_player_id : ltb_ℤ (pos 0) player_id ≡ false → Refused clock player_id user_id db value_error
  no_user_id : ltb_ℤ (pos 0) user_id ≡ false → Refused clock player_id user_id db value_error
  no_zone : (t : ℕ) → clock ≡ naive t → Refused clock player_id user_id db value_error
  no_member :
      member_for_playhub_player player_id db ≡ none
      → Refused clock player_id user_id db identity_admin_error

-- A call of link_discord_for_playhub_player either returns the active member of the player, after
-- which the Discord user is that member, every other user and every player is who they were; or
-- raises and writes nothing: ValueError for an ID that is not positive or a naive clock,
-- IdentityAdminError where the player has no active member.
pub link_discord_settles :
    (clock : Datetime) (player_id user_id : ℤ) (db : Db)
    → let result = link_discord_for_playhub_player clock player_id user_id db in
      ((row : MemberIdentity) × (after : Db) × (result ≡ (ok row, after))
        × Linked player_id user_id row db after)
      ⊎ ((e : Error) × (result ≡ (err e, db)) × Refused clock player_id user_id db e)
unfolding link_discord_for_playhub_player link_discord_account
link_discord_settles (naive t) player_id user_id db = elim (Bool-cases (ltb_ℤ (pos 0) player_id)) [
  | inr low ↦ inr (value_error, ground (arith, low), no_player_id low)
  | inl player ↦ elim (Bool-cases (ltb_ℤ (pos 0) user_id)) [
    | inr low ↦ inr (value_error, ground (arith, player, low), no_user_id low)
    | inl user ↦ inr (value_error, ground (arith, player, user), no_zone t refl)
  ]
]
link_discord_settles (aware now) player_id user_id db =
    elim (Bool-cases (ltb_ℤ (pos 0) player_id)) [
      | inr low ↦ inr (value_error, ground (arith, low), no_player_id low)
      | inl player ↦ elim (Bool-cases (ltb_ℤ (pos 0) user_id)) [
        | inr low ↦ inr (value_error, ground (arith, player, low), no_user_id low)
        | inl user ↦ elim (Option-cases (member_for_playhub_player player_id db)) [
          | inl absent ↦
              inr (identity_admin_error, ground (arith, player, user, absent), no_member absent)
          | inr (row, found) ↦
              let a = player-IsActive player_id db found in
              inl (
                row,
                linked_accounts user_id row now db,
                ground (arith, player, user, found, a.exists),
                linked player_id user_id row now db found a,
              )
        ]
      ]
    ]
