-- ===== src/Member/Profiles.antt =====
-- `Profile` and `NormalizeProfile` of member/member.go.
use gouterstellar_platform.Base.{
  ltb, if◌then◌else◌, Result, ok, err, length, Bool, true, not, ◌&&◌, ◌||◌, Option, none, some,
}
use gouterstellar_platform.Text.{Bytes, codes, is_empty, text_eq}
use gouterstellar_platform.Text.Trim.{trim_space}
use gouterstellar_platform.Text.Runes.{rune_count}

pub record Profile : Type 0 where
  pub display_name : Bytes
  pub headline : Bytes
  pub location : Bytes
  pub pronouns : Bytes
  pub bio : Bytes
  pub website : Bytes
  pub public : Bool
  pub has_avatar : Bool

-- What the code reads of the result of `url.Parse`: the scheme, `Hostname()`, and whether `User` is
-- set. `none` stands for a parse error.
pub record Link : Type 0 where
  pub scheme : Bytes
  pub hostname : Bytes
  pub has_user : Bool

pub data ProfileError : Type 0 where
  invalid_profile : ProfileError

unfoldable pub trimmed : Profile → Profile
trimmed profile = record profile {
  display_name = trim_space profile.display_name;
  headline = trim_space profile.headline;
  location = trim_space profile.location;
  pronouns = trim_space profile.pronouns;
  bio = trim_space profile.bio;
  website = trim_space profile.website;
}

unfoldable pub too_long : Profile → Bool
too_long profile =
    ltb 80 (rune_count profile.display_name)
    || ltb 120 (rune_count profile.headline)
    || ltb 120 (rune_count profile.location)
    || ltb 60 (rune_count profile.pronouns)
    || ltb 1000 (rune_count profile.bio)
    || ltb 300 (length profile.website)
    || (profile.public && is_empty profile.display_name)

unfoldable pub bad_link : Option Link → Bool
bad_link none = true
bad_link (some link) =
    (not (text_eq link.scheme (codes "https")) && not (text_eq link.scheme (codes "http")))
    || is_empty link.hostname
    || link.has_user

module _ (parse : Bytes → Option Link) where
  unfoldable pub normalize_profile : Profile → Result ProfileError Profile
  normalize_profile profile =
      let profile = trimmed profile in
      if too_long profile
      then err invalid_profile
      else if not (is_empty profile.website) && bad_link (parse profile.website)
      then err invalid_profile
      else ok profile
