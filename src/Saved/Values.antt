-- ===== src/Saved/Values.antt =====
-- The values that YAML has, and the coercions of `_record_from_dict` on them.
use lib_python_worktree.Prelude.{
  ℕ, String, Bool, true, false, Option, none, some, List, [], ◌∷◌, not, ◌==◌, if◌then◌else◌, str_eq,
}
use lib_python_worktree.Prelude.Int.{ℤ, pos, negsuc}
use lib_python_worktree.Prelude.Results.{Result, ok, err, ◌>>=◌}
use lib_python_worktree.Prelude.Dict.{Dict}

-- A float is finite, with the number that stands for it, or `nan` or an infinity.
mutual
  pub data Value : Type 0 where
    null : Value
    bool : Bool → Value
    int : ℤ → Value
    float : ℕ → Value
    not_finite : Value
    text : String → Value
    list : Items → Value
    dict : Entries → Value

  pub data Items : Type 0 where
    nil : Items
    cons : Value → Items → Items

  pub data Entries : Type 0 where
    end : Entries
    entry : Value → Value → Entries → Entries

-- `d["k"]` of a key that is not there, and what is outside the model.
pub data ReadError : Type 0 where
  missing_key : String → ReadError
  unexpected : ReadError

abbrev pub Read : Type 0 → Type 0
Read A = Result ReadError A

-- `d.get(k)`
unfoldable pub get : String → Entries → Option Value
get k end = none
get k (entry (text j) v d) = if str_eq j k then some v else get k d
get k (entry _ v d) = get k d

-- `bool(v)`, where `is_zero` tells the float 0.0.
module _ (is_zero : ℕ → Bool) where
  unfoldable pub truthy : Value → Bool
  truthy null = false
  truthy (bool b) = b
  truthy (int (pos n)) = not (n == 0)
  truthy (int (negsuc n)) = true
  truthy (float x) = not (is_zero x)
  truthy not_finite = true
  truthy (text s) = not (str_eq s "")
  truthy (list nil) = false
  truthy (list (cons _ _)) = true
  truthy (dict end) = false
  truthy (dict (entry _ _ _)) = true

unfoldable pub as_text : Value → Read String
as_text (text s) = ok s
as_text _ = err unexpected

unfoldable pub as_nat : Value → Read ℕ
as_nat (int (pos n)) = ok n
as_nat _ = err unexpected

unfoldable pub as_int : Value → Read ℤ
as_int (int z) = ok z
as_int _ = err unexpected

unfoldable pub as_float : Value → Read ℕ
as_float (float x) = ok x
as_float _ = err unexpected

unfoldable pub as_dict : Value → Read Entries
as_dict (dict d) = ok d
as_dict _ = err unexpected

-- `d.get(k)` of an optional field.
unfoldable pub optional {ℓ} :
    {A : Type ℓ} → (Value → Result ReadError A) → Option Value → Result ReadError (Option A)
optional read none = ok none
optional read (some null) = ok none
optional read (some v) = read v >>= λ a. ok (some a)

-- `d.get(k, default)`
unfoldable pub or_default {ℓ} :
    {A : Type ℓ} → (Value → Result ReadError A) → A → Option Value → Result ReadError A
or_default read default none = ok default
or_default read default (some v) = read v

-- `d[k]`
unfoldable pub required : String → Entries → Read Value
required k d = elim (get k d) [ none ↦ err (missing_key k) | some v ↦ ok v ]

unfoldable pub items_of : (Value → Read ℕ) → Items → Read (List ℕ)
items_of read nil = ok []
items_of read (cons v vs) = read v >>= λ a. items_of read vs >>= λ rest. ok (a ∷ rest)

unfoldable pub texts_of : Items → Read (List String)
texts_of nil = ok []
texts_of (cons v vs) = as_text v >>= λ a. texts_of vs >>= λ rest. ok (a ∷ rest)

unfoldable pub as_list : Value → Read Items
as_list (list vs) = ok vs
as_list _ = err unexpected

-- The entries of a dict with text keys.
unfoldable pub entries_of {ℓ} :
    {A : Type ℓ} → (Value → Result ReadError A) → Entries → Result ReadError (Dict A)
entries_of read end = ok []
entries_of read (entry k v d) =
    as_text k >>= λ key. read v >>= λ a. entries_of read d >>= λ rest. ok ((key, a) ∷ rest)

-- `dict(x)`, `list(x)` of Python values.
unfoldable pub text_items : List String → Items
text_items [] = nil
text_items (s ∷ ss) = cons (text s) (text_items ss)

unfoldable pub nat_items : List ℕ → Items
nat_items [] = nil
nat_items (n ∷ ns) = cons (int (pos n)) (nat_items ns)

unfoldable pub to_entries {ℓ} : {A : Type ℓ} → (A → Value) → Dict A → Entries
to_entries to [] = end
to_entries to ((k, a) ∷ d) = entry (text k) (to a) (to_entries to d)

unfoldable pub or_null {ℓ} : {A : Type ℓ} → (A → Value) → Option A → Value
or_null to none = null
or_null to (some a) = to a
