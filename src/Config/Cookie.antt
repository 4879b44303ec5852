-- ===== src/Config/Cookie.antt =====
-- src/config/cookie.rs: the text of a cookie. The crate regex is a parameter.
use Prim.Native.Char.{code}
use Prim.Native.String.{String}
use clewdr_hub.Common.{
  ℕ, Bool, ◌&&◌, ◌||◌, Option, none, some, leb, ◌==◌, if◌then◌else◌, and_then, ℤ,
}
use clewdr_hub.Config.Slot.{AccountSlot, cookie_slot}

-- What `find` gives for the pattern of a full cookie, and whether a text is a cookie without its head.
pub record CookiePatterns : Type 0 where
  pub find_full : String → Option String
  pub is_base : String → Bool

abbrev is_ascii_alphanumeric : ℕ → Bool
is_ascii_alphanumeric c = leb 48 c && leb c 57 || leb 65 c && leb c 90 || leb 97 c && leb c 122

-- The characters that a cookie is made of. The white space that `trim` takes off is not among them.
unfoldable pub clean : String → String
clean String.[] = String.[]
clean (String.◌∷◌ c s) =
    let rest = clean s in
    if is_ascii_alphanumeric (code c) || code c == 95 || code c == 45
    then String.◌∷◌ c rest
    else rest

-- `ClewdrCookie::from_str`; `none` is the error.
unfoldable pub cookie_from_str : CookiePatterns → String → Option String
cookie_from_str patterns s = elim (patterns.find_full (clean s)) [
  | some found ↦ some found
  | none ↦ if patterns.is_base (clean s) then some (clean s) else none
]

-- `AccountSlot::new`.
unfoldable pub new_cookie_slot : CookiePatterns → String → Option ℤ → Option AccountSlot
new_cookie_slot patterns s reset_time =
    and_then (cookie_from_str patterns s) (λ blob. some (cookie_slot blob reset_time))
