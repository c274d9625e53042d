-- ===== src/Teams/Tables.antt =====
-- The tables of src/lorcana/db/schema/identity.py and the records of src/lorcana/teams/types.py.
use inkspire_lorcana_develop.Prelude.{
  ℕ, ◌==◌, Bool, true, false, ◌&&◌, String, str_eq, List, [], Option, none, some, ℤ, eqb_ℤ,
}

pub data Status : Type 0 where
  active inactive : Status

abbrev pub is_active : Status → Bool
is_active active = true
is_active inactive = false

pub record Member : Type 0 where
  pub member_id : ℕ
  pub preferred_display_name : String
  pub status : Status
  pub created_at : ℕ
  pub updated_at : ℕ

pub record Team : Type 0 where
  pub team_id : ℕ
  pub slug : String
  pub name : String
  pub status : Status
  pub created_at : ℕ
  pub updated_at : ℕ

pub record TeamMembership : Type 0 where
  pub team_membership_id : ℕ
  pub team_id : ℕ
  pub member_id : ℕ
  pub role : String
  pub joined_at : ℕ
  pub ended_at : Option ℕ

pub record MemberPlayhubLink : Type 0 where
  pub player_id : ℤ
  pub member_id : ℕ
  pub is_primary : Bool
  pub linked_at : ℕ
  pub linked_by : Option String

pub record DiscordAccount : Type 0 where
  pub discord_user_id : ℤ
  pub member_id : ℕ
  pub linked_at : ℕ

pub record Db : Type 0 where
  pub members : List Member
  pub teams : List Team
  pub team_memberships : List TeamMembership
  pub member_playhub_links : List MemberPlayhubLink
  pub discord_accounts : List DiscordAccount

abbrev pub empty_db : Db
empty_db = record {
  members = [];
  teams = [];
  team_memberships = [];
  member_playhub_links = [];
  discord_accounts = [];
}

-- The keys by which the statements select.
abbrev pub is_member : ℕ → Member → Bool
is_member i m = m.member_id == i

abbrev pub is_team : ℕ → Team → Bool
is_team i t = t.team_id == i

abbrev pub has_slug : String → Team → Bool
has_slug slug t = str_eq t.slug slug

abbrev pub is_membership : ℕ → TeamMembership → Bool
is_membership i s = s.team_membership_id == i

-- `ended_at IS NULL`
abbrev pub is_open : Option ℕ → Bool
is_open none = true
is_open (some t) = false

abbrev pub is_current : ℕ → ℕ → TeamMembership → Bool
is_current team_id member_id s =
    s.team_id == team_id && s.member_id == member_id && is_open s.ended_at

abbrev pub is_player : ℤ → MemberPlayhubLink → Bool
is_player i l = eqb_ℤ l.player_id i

abbrev pub is_primary_of : ℕ → MemberPlayhubLink → Bool
is_primary_of i l = l.member_id == i && l.is_primary

abbrev pub is_user : ℤ → DiscordAccount → Bool
is_user i a = eqb_ℤ a.discord_user_id i
