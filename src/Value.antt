-- ===== src/Value.antt =====
-- The JSON values that the services pass around as `dict[str, Any]`, with Python's `==`, its
-- order, `in` and truth value.
pub mod Text
pub mod Numbers
use placement_assistant.Prelude.{
  ℕ, suc, ◌+◌, ◌*◌, String, Bool, true, false, ◌&&◌, ◌||◌, Option, none, some, ℤ, pos, negsuc,
  pos_part, neg_part, leb, ltb, ◌==◌, str_eq, if◌then◌else◌,
}
use placement_assistant.Value.Text.{Rank, less, same, more, rank, text_order, is_infix}

-- A float is finite, and is given by its exact value: `float n d` is n / (d + 1). JSON has no NaN.
mutual
  pub data Value : Type 0 where
    null : Value
    bool : Bool → Value
    int : ℤ → Value
    float : ℤ → ℕ → Value
    str : String → Value
    list : Items → Value
    dict : Fields → Value

  pub data Items : Type 0 where
    nil : Items
    cons : Value → Items → Items

  -- A dict has each key once.
  pub data Fields : Type 0 where
    end : Fields
    field : String → Value → Fields → Fields

-- d.get(key), with None told apart from a missing key
unfoldable pub get : Fields → String → Option Value
get end k = none
get (field j v fs) k = if str_eq j k then some v else get fs k

count_fields : Fields → ℕ
count_fields end = 0
count_fields (field k v fs) = suc (count_fields fs)

-- A number as numerator and denominator less one; True is 1 and False is 0.
unfoldable pub number : Value → Option (ℤ × ℕ)
number null = none
number (bool true) = some (pos 1, 0)
number (bool false) = some (pos 0, 0)
number (int n) = some (n, 0)
number (float n d) = some (n, d)
number (str s) = none
number (list xs) = none
number (dict fs) = none

-- a / (b + 1) against c / (d + 1), exactly, as Python compares an int with a float.
unfoldable pub number_order : ℤ × ℕ → ℤ × ℕ → Rank
unfolding rank
number_order (a, b) (c, d) =
    rank (pos_part a * suc d + neg_part c * suc b) (pos_part c * suc b + neg_part a * suc d)

abbrev pub same_rank : Rank → Bool
same_rank less = false
same_rank same = true
same_rank more = false

same_number : Option (ℤ × ℕ) → Option (ℤ × ℕ) → Bool
unfolding number_order
same_number (some p) (some q) = same_rank (number_order p q)
same_number (some p) none = false
same_number none q = false

is_none : Value → Bool
is_none null = true
is_none _ = false

same_text : String → Value → Bool
same_text s (str t) = str_eq s t
same_text s _ = false

-- `v == w`
unfoldable mutual
  unfolding get count_fields number number_order same_number is_none same_text

  pub eq : Value → Value → Bool
  eq null w = is_none w
  eq (bool b) w = same_number (number (bool b)) (number w)
  eq (int n) w = same_number (number (int n)) (number w)
  eq (float n d) w = same_number (number (float n d)) (number w)
  eq (str s) w = same_text s w
  eq (list xs) (list ys) = eq_items xs ys
  eq (list xs) _ = false
  eq (dict fs) (dict gs) = count_fields fs == count_fields gs && eq_fields fs gs
  eq (dict fs) _ = false

  eq_items : Items → Items → Bool
  eq_items nil nil = true
  eq_items nil (cons y ys) = false
  eq_items (cons x xs) nil = false
  eq_items (cons x xs) (cons y ys) = eq x y && eq_items xs ys

  eq_fields : Fields → Fields → Bool
  eq_fields end gs = true
  eq_fields (field k v fs) gs =
      elim (get gs k) [ none ↦ false | some w ↦ eq v w ] && eq_fields fs gs

-- How `v` stands to `w` where Python orders them; `none` is a TypeError. Lists are compared at
-- the first place where they differ.
number_order? : Option (ℤ × ℕ) → Option (ℤ × ℕ) → Option Rank
unfolding number_order
number_order? (some p) (some q) = some (number_order p q)
number_order? (some p) none = none
number_order? none q = none

unfoldable mutual
  unfolding number number_order number_order? text_order

  pub order : Value → Value → Option Rank
  order null w = none
  order (bool b) w = number_order? (number (bool b)) (number w)
  order (int n) w = number_order? (number (int n)) (number w)
  order (float n d) w = number_order? (number (float n d)) (number w)
  order (str s) (str t) = some (text_order s t)
  order (str s) _ = none
  order (list xs) (list ys) = order_items xs ys
  order (list xs) _ = none
  order (dict fs) w = none

  order_items : Items → Items → Option Rank
  order_items nil nil = some same
  order_items nil (cons y ys) = some less
  order_items (cons x xs) nil = some more
  order_items (cons x xs) (cons y ys) = elim (eq x y) [
    | true ↦ order_items xs ys
    | false ↦ order x y
  ]

-- `v < w` and `v <= w`; `none` is a TypeError
abbrev pub lt_rank : Option Rank → Option Bool
lt_rank none = none
lt_rank (some less) = some true
lt_rank (some same) = some false
lt_rank (some more) = some false

abbrev pub le_rank : Option Rank → Option Bool
le_rank none = none
le_rank (some less) = some true
le_rank (some same) = some true
le_rank (some more) = some false

unfoldable pub lt : Value → Value → Option Bool
unfolding order
lt v w = lt_rank (order v w)

unfoldable pub le : Value → Value → Option Bool
unfolding order
le v w = le_rank (order v w)

has_item : Value → Items → Bool
unfolding eq
has_item v nil = false
has_item v (cons x xs) = eq v x || has_item v xs

-- `v in d`: the keys are texts, and an unhashable `v` is a TypeError.
has_key : Value → Fields → Option Bool
unfolding get
has_key (str s) fs = some (elim (get fs s) [ none ↦ false | some _ ↦ true ])
has_key (list xs) fs = none
has_key (dict gs) fs = none
has_key _ fs = some false

has_part : Value → String → Option Bool
unfolding is_infix
has_part (str s) t = some (is_infix s t)
has_part _ t = none

-- `v in w`; `none` is a TypeError
unfoldable pub contained : Value → Value → Option Bool
unfolding has_item has_key has_part
contained v (list xs) = some (has_item v xs)
contained v (dict fs) = has_key v fs
contained v (str t) = has_part v t
contained v _ = none

-- bool(v)
unfoldable pub truthy : Value → Bool
truthy null = false
truthy (bool b) = b
truthy (int (pos n)) = ltb 0 n
truthy (int (negsuc n)) = true
truthy (float (pos n) d) = ltb 0 n
truthy (float (negsuc n) d) = true
truthy (str String.[]) = false
truthy (str _) = true
truthy (list nil) = false
truthy (list (cons x xs)) = true
truthy (dict end) = false
truthy (dict (field k v fs)) = true
