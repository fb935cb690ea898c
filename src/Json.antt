-- ===== src/Json.antt =====
-- What `resp.json()` returns, and the accesses that the adapters and the currency service make to
-- it. A number is the value of `Decimal(str(v))`.
use price_monitoring_service.Prelude.{
  String, Bool, true, false, Option, none, some, not, if◌then◌else◌,
}
use price_monitoring_service.Decimal.{Decimal, is_nonzero}
use price_monitoring_service.Exec.{Result, ok, err, key_error, type_error}
use text.Mathlib.Text.{◌==◌ as str_eq}

mutual
  pub data Json : Type 0 where
    null : Json
    bool : Bool → Json
    num : Decimal → Json
    str : String → Json
    arr : Items → Json
    obj : Fields → Json

  pub data Items : Type 0 where
    nil : Items
    cons : Json → Items → Items

  pub data Fields : Type 0 where
    end : Fields
    field : String → Json → Fields → Fields

-- The last of equal keys wins, as in Python's decoder.
abbrev pub find_field : String → Fields → Option Json
find_field k end = none
find_field k (field j v rest) =
    let later = find_field k rest in
    elim later [ some w ↦ some w | none ↦ if str_eq j k then some v else none ]

abbrev pub found_or : Result Json → Option Json → Result Json
found_or missing (some v) = ok v
found_or missing none = missing

-- `v[key]`: a mapping raises KeyError, a value of any other type TypeError
abbrev pub item : Json → String → Result Json
item (obj fs) key = found_or (err key_error) (find_field key fs)
item _ key = err type_error

-- `v.get(key, default)`; the callers have read a key of `v` before
abbrev pub get_or : Json → String → Json → Result Json
get_or (obj fs) key default = found_or (ok default) (find_field key fs)
get_or _ key default = err type_error

-- `bool(v)`
abbrev pub truthy : Json → Bool
truthy null = false
truthy (bool b) = b
truthy (num d) = is_nonzero d
truthy (str s) = not (str_eq s "")
truthy (arr nil) = false
truthy (arr (cons _ _)) = true
truthy (obj end) = false
truthy (obj (field _ _ _)) = true

-- `v[0]`, for a value that is true
abbrev pub first : Json → Result Json
first (arr (cons v _)) = ok v
first (obj _) = err key_error
first (str s) = ok (str s)
first _ = err type_error
