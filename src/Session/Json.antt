-- ===== src/Session/Json.antt =====
-- The values that `json.loads` returns, as linux/src/ydyun_session.py looks at them.
use ydyun_vdesktop_linux_dri.Base.{Bool, true, false, List, [], ◌∷◌, if◌then◌else◌, Text, text_eq}
use ydyun_vdesktop_linux_dri.Base.Int.{ℤ}
use ydyun_vdesktop_linux_dri.Base.Floats.{Float}

-- A dictionary has a key once; `members` are its items in order.
mutual
  pub data Json : Type 0 where
    null : Json
    boolean : Bool → Json
    integer : ℤ → Json
    float : Float → Json
    text : Text → Json
    array : Elements → Json
    object : Members → Json

  pub data Elements : Type 0 where
    no_more : Elements
    element : Json → Elements → Elements

  pub data Members : Type 0 where
    end : Members
    member : Text → Json → Members → Members

-- `mapping.get(key)`, which is None for a key that is not there.
abbrev pub get : Members → Text → Json
get end key = null
get (member name value rest) key = if text_eq key name then value else get rest key

-- `value not in (None, "")`
abbrev pub given : Json → Bool
given null = false
given (text []) = false
given other = true

unfoldable pub first : Members → List Text → Json
first mapping [] = null
first mapping (key ∷ keys) =
    let rest = first mapping keys in if given (get mapping key) then get mapping key else rest
