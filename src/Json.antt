-- ===== src/Json.antt =====
-- `serde_json::Value` as the code of web3_proxy/src takes it apart. A number keeps its text.
use Prim.Native.String.{String}
use text.Mathlib.Text.{◌==◌ as str_eq}
use web3_proxy.Prelude.{ℕ, zero, suc, ◌≡◌, refl, ap, Bool, Option, none, some, arith, if◌then◌else◌}

mutual
  pub data Value : Type 0 where
    null : Value
    bool : Bool → Value
    num : String → Value
    str : String → Value
    array : Values → Value
    object : Members → Value

  pub data Values : Type 0 where
    nil : Values
    cons : Value → Values → Values

  pub data Members : Type 0 where
    end : Members
    member : String → Value → Members → Members

unfoldable pub values_len : Values → ℕ
values_len nil = 0
values_len (cons _ vs) = suc (values_len vs)

-- `Vec::get`, `Vec::push` and a write through `get_mut`.
unfoldable pub get : Values → ℕ → Option Value
get nil i = none
get (cons v vs) zero = some v
get (cons v vs) (suc i) = get vs i

unfoldable pub push : Values → Value → Values
push nil w = cons w nil
push (cons v vs) w = cons v (push vs w)

unfoldable pub set : Values → ℕ → Value → Values
set nil i w = nil
set (cons v vs) zero w = cons w vs
set (cons v vs) (suc i) w = cons v (set vs i w)

-- `Map::get`, and a write through `get_mut` to a key that is there.
unfoldable pub get_key : Members → String → Option Value
get_key end k = none
get_key (member j v ms) k = if str_eq j k then some v else get_key ms k

unfoldable pub set_key : Members → String → Value → Members
set_key end k w = end
set_key (member j v ms) k w =
    let rest = set_key ms k w in if str_eq j k then member j w ms else member j v rest

pub get-push : (vs : Values) (w : Value) → get (push vs w) (values_len vs) ≡ some w
unfolding get push values_len
get-push nil w = refl
get-push (cons v vs) w = get-push vs w

pub get-set :
    (vs : Values) (i : ℕ) {v : Value} (w : Value) → get vs i ≡ some v → get (set vs i w) i ≡ some w
unfolding get set
get-set nil i w h = cc
get-set (cons v vs) zero w h = refl
get-set (cons v vs) (suc i) w h = get-set vs i w h

pub set-set : (vs : Values) (i : ℕ) (v w : Value) → set (set vs i v) i w ≡ set vs i w
unfolding set
set-set nil i v w = refl
set-set (cons u vs) zero v w = refl
set-set (cons u vs) (suc i) v w = ap (cons u) (set-set vs i v w)

-- Writing what is there changes nothing.
pub set-get_self : (vs : Values) (i : ℕ) {v : Value} → get vs i ≡ some v → set vs i v ≡ vs
unfolding get set
set-get_self nil i h = refl
set-get_self (cons u vs) zero {v} h = ground arith
set-get_self (cons u vs) (suc i) h = ap (cons u) (set-get_self vs i h)
