-- ===== src/Teams/Identity.antt =====
-- `IdentityRepository` (src/lorcana/identity/repository.py) and `IdentityAdminService`
-- (src/lorcana/identity/service.py): the member behind a provider's account.
pub mod Linked
use inkspire_lorcana_develop.Prelude.{
  ℕ, Bool, true, false, not, ◌&&◌, if◌then◌else◌, String, List, [], ◌∷◌, any, find, Option, none,
  some, ℤ, pos, ltb_ℤ, Result, ok, err, ◌>>=◌, raise_if, transact, value_error, integrity_error,
  identity_admin_error, Datetime, to_utc,
}
use inkspire_lorcana_develop.PlayHub.Tables.{upsert}
use inkspire_lorcana_develop.Teams.Tables.{
  Db, Member, DiscordAccount, is_active, is_member, is_player, is_user,
}

-- The columns that the queries select, which are the fields of `MemberIdentity`.
pub record MemberIdentity : Type 0 where
  pub member_id : ℕ
  pub preferred_display_name : String

abbrev pub is_active_member : ℕ → Member → Bool
is_active_member i m = is_member i m && is_active m.status

-- The join of an account's member id with the active members.
abbrev pub active_member : Option ℕ → Db → Option MemberIdentity
active_member none db = none
active_member (some i) db = elim (find (is_active_member i) db.members) [
  | none ↦ none
  | some m ↦
      some (record { member_id = m.member_id; preferred_display_name = m.preferred_display_name })
]

unfoldable pub member_for_discord_user : ℤ → Db → Option MemberIdentity
member_for_discord_user user_id db =
    active_member
      (elim (find (is_user user_id) db.discord_accounts) [
        | none ↦ none
        | some a ↦ some a.member_id
      ])
      db

unfoldable pub member_for_playhub_player : ℤ → Db → Option MemberIdentity
member_for_playhub_player player_id db =
    active_member
      (elim (find (is_player player_id) db.member_playhub_links) [
        | none ↦ none
        | some l ↦ some l.member_id
      ])
      db

abbrev pub relinked : ℕ → ℕ → DiscordAccount → DiscordAccount
relinked member_id linked_at a = record a { member_id = member_id; linked_at = linked_at }

unfoldable pub link_discord_account : ℤ → ℕ → ℕ → Db → Result Db
link_discord_account user_id member_id linked_at db =
    if any (is_member member_id) db.members
    then ok (record db {
      discord_accounts =
          upsert (is_user user_id) (relinked member_id linked_at)
            (record { discord_user_id = user_id; member_id = member_id; linked_at = linked_at })
            db.discord_accounts;
    })
    else err integrity_error

-- `IdentityAdminError` where there is no row.
abbrev pub or_unlinked : Option MemberIdentity → Result MemberIdentity
or_unlinked none = err identity_admin_error
or_unlinked (some row) = ok row

-- `IdentityAdminService.member_for_playhub_player`
unfoldable pub identity_of_player : ℤ → Db → Result MemberIdentity
identity_of_player player_id db = do
  checked ← raise_if (not (ltb_ℤ (pos 0) player_id)) value_error
  or_unlinked (member_for_playhub_player player_id db)

-- The block of the transaction.
abbrev pub link_body : ℤ → ℤ → ℕ → Db → Result (MemberIdentity × Db)
link_body player_id user_id now db = do
  row ← or_unlinked (member_for_playhub_player player_id db)
  after ← link_discord_account user_id row.member_id now db
  ok (row, after)

unfoldable pub link_discord_for_playhub_player : Datetime → ℤ → ℤ → Db → Result MemberIdentity × Db
link_discord_for_playhub_player clock player_id user_id db =
    let checks : Result ℕ = do
      positive ← raise_if (not (ltb_ℤ (pos 0) player_id)) value_error
      positive_user ← raise_if (not (ltb_ℤ (pos 0) user_id)) value_error
      to_utc clock
    in elim checks [ err e ↦ (err e, db) | ok now ↦ transact (link_body player_id user_id now) db ]
