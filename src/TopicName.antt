-- ===== src/TopicName.antt =====
-- lib/TopicName.cc, lib/NamespaceName.cc and lib/NamedEntity.cc over the bytes of a name.
mod RoundTrip
mod Tests
use Prim.Native.String.{String}
use pulsar_client_cpp.Prelude.{
  ℕ, zero, suc, ◌+◌, ◌-◌, ◌*◌, ◌/◌, ◌%◌, ◌^◌, Bool, true, false, not, ◌&&◌, ◌||◌, Option, none,
  some, List, [], ◌∷◌, ◌++◌, length, ltb, leb, ◌==◌, if◌then◌else◌,
}
use pulsar_client_cpp.Prelude.Text.{codes, eq_bytes}

abbrev pub Bytes : Type 0
Bytes = List ℕ

abbrev pub slash : Bytes
slash = b'/' ∷ []

abbrev pub scheme_end : Bytes
scheme_end = b':' ∷ b'/' ∷ b'/' ∷ []

abbrev pub is_nil : Bytes → Bool
is_nil [] = true
is_nil (c ∷ cs) = false

-- `NamedEntity::checkName`.
unfoldable pub is_name_char : ℕ → Bool
is_name_char c =
    (leb b'a' c && leb c b'z')
    || ((leb b'A' c && leb c b'Z')
        || ((leb b'0' c && leb c b'9')
            || (c == b'_' || (c == b'-' || (c == b'=' || (c == b':' || c == b'.'))))))

unfoldable pub check_name : Bytes → Bool
unfolding is_name_char
check_name [] = true
check_name (c ∷ cs) = if is_name_char c then check_name cs else false

-- The text before and after the first "://".
unfoldable pub cut_scheme : Bytes → Option (Bytes × Bytes)
cut_scheme (b ∷ c ∷ d ∷ cs) =
    if b == b':' && (c == b'/' && d == b'/')
    then some ([], cs)
    else (elim (cut_scheme (c ∷ d ∷ cs)) [
      | none ↦ none
      | some (before, after) ↦ some (b ∷ before, after)
    ])
cut_scheme _ = none

-- `boost::algorithm::split` at each '/'.
abbrev pub push_front : ℕ → List Bytes → List Bytes
push_front c [] = (c ∷ []) ∷ []
push_front c (t ∷ ts) = (c ∷ t) ∷ ts

unfoldable pub split : Bytes → List Bytes
split [] = [] ∷ []
split (c ∷ cs) = if c == b'/' then [] ∷ split cs else push_front c (split cs)

-- What follows the n-th '/'.
unfoldable pub after_slashes : ℕ → Bytes → Bytes
after_slashes zero cs = cs
after_slashes (suc n) [] = []
after_slashes (suc n) (c ∷ cs) = if c == b'/' then after_slashes n cs else after_slashes (suc n) cs

-- The fields that `parse` assigns, which are empty where it finds too few parts.
pub record Parts : Type 0 where
  pub is_v2 : Bool
  pub domain : Bytes
  pub property : Bytes
  pub cluster : Bytes
  pub namespace_portion : Bytes
  pub local_name : Bytes

abbrev pub no_parts : Parts
no_parts = record {
  is_v2 = false;
  domain = [];
  property = [];
  cluster = [];
  namespace_portion = [];
  local_name = [];
}

abbrev pub replace_scheme : Bytes → Bytes
replace_scheme name = elim (cut_scheme name) [
  | none ↦ name
  | some (before, after) ↦ before ++ (slash ++ after)
]

unfoldable pub parts_of : Bytes → List Bytes → Parts
parts_of copy (d ∷ p ∷ n ∷ l ∷ []) = record {
  is_v2 = true;
  domain = d;
  property = p;
  cluster = [];
  namespace_portion = n;
  local_name = after_slashes 3 copy;
}
parts_of copy (d ∷ p ∷ c ∷ n ∷ l ∷ rest) = record {
  is_v2 = false;
  domain = d;
  property = p;
  cluster = c;
  namespace_portion = n;
  local_name = after_slashes 4 copy;
}
parts_of copy _ = no_parts

unfoldable pub parse : Bytes → Parts
unfolding parts_of after_slashes split cut_scheme
parse name = let copy = replace_scheme name in parts_of copy (split copy)

-- `NamespaceName::get` with and without a cluster: the text of the name, or a null pointer.
unfoldable pub namespace_v1 : Bytes → Bytes → Bytes → Option Bytes
unfolding check_name
namespace_v1 property cluster name =
    if not (is_nil property) && (not (is_nil cluster) && not (is_nil name))
    then (if check_name property && (check_name cluster && check_name name)
        then some (property ++ (slash ++ (cluster ++ (slash ++ name))))
        else none)
    else none

unfoldable pub namespace_v2 : Bytes → Bytes → Option Bytes
unfolding check_name
namespace_v2 property name =
    if not (is_nil property) && not (is_nil name)
    then (if check_name property && check_name name
        then some (property ++ (slash ++ name))
        else none)
    else none

-- `getPartitionIndex`: `none` is -1. `std::stoi` skips white space, reads a sign and digits, and
-- throws where there is no digit or the value is no int. Behind the last '-' there is no '-'.
unfoldable pub is_digit : ℕ → Bool
is_digit c = leb b'0' c && leb c b'9'

unfoldable pub read_digits : ℕ → Bytes → ℕ
unfolding is_digit
read_digits acc [] = acc
read_digits acc (c ∷ cs) = if is_digit c then read_digits (acc * 10 + (c - b'0')) cs else acc

unfoldable pub stoi_digits : Bytes → Option ℕ
unfolding read_digits
stoi_digits [] = none
stoi_digits (c ∷ cs) =
    if is_digit c
    then (let n = read_digits 0 (c ∷ cs) in if ltb n (2 ^ 31) then some n else none)
    else none

unfoldable pub stoi : Bytes → Option ℕ
unfolding stoi_digits
stoi [] = none
stoi (c ∷ cs) =
    if c == 32 || (leb 9 c && leb c 13)
    then stoi cs
    else if c == b'+'
    then stoi_digits cs
    else stoi_digits (c ∷ cs)

abbrev pub partition_suffix : Bytes
partition_suffix = codes "-partition-"

abbrev pub has_prefix : Bytes → Bytes → Bool
has_prefix [] cs = true
has_prefix (p ∷ ps) [] = false
has_prefix (p ∷ ps) (c ∷ cs) = if p == c then has_prefix ps cs else false

unfoldable pub contains : Bytes → Bytes → Bool
contains sub [] = is_nil sub
contains sub (c ∷ cs) = if has_prefix sub (c ∷ cs) then true else contains sub cs

-- What follows the last '-', or the whole text.
abbrev pub last_dash_or : Bytes → Bytes → Bytes
last_dash_or seen [] = seen
last_dash_or seen (c ∷ cs) = last_dash_or (if c == b'-' then cs else seen) cs

unfoldable pub get_partition_index : Bytes → Option ℕ
unfolding contains stoi
get_partition_index topic =
    if contains partition_suffix topic then stoi (last_dash_or topic topic) else none

-- A `TopicName` whose `init` has succeeded.
pub record TopicName : Type 0 where
  pub topic_name : Bytes
  pub parts : Parts
  pub namespace_name : Option Bytes
  pub partition : Option ℕ

-- The full name that `init` makes of a short one, where it is well formed.
unfoldable pub full_name : Bytes → Option Bytes
unfolding cut_scheme split
full_name name = elim (cut_scheme name) [
  | some _ ↦ some name
  | none ↦ elim (split name) [
    | t ∷ [] ↦ some (codes "persistent://public/default/" ++ t)
    | p ∷ n ∷ t ∷ [] ↦ some (codes "persistent://" ++ (p ++ (slash ++ (n ++ (slash ++ t)))))
    | _ ↦ none
  ]
]

unfoldable pub init_parts : Bytes → Parts → Option TopicName
unfolding namespace_v1 namespace_v2 get_partition_index
init_parts name p =
    if p.is_v2 && not (is_nil p.cluster)
    then none
    else if not p.is_v2 && is_nil p.cluster
    then none
    else if is_nil p.local_name
    then none
    else some (record {
      topic_name = name;
      parts = p;
      namespace_name =
          if p.is_v2 && is_nil p.cluster
          then namespace_v2 p.property p.namespace_portion
          else namespace_v1 p.property p.cluster p.namespace_portion;
      partition = get_partition_index p.local_name;
    })

unfoldable pub init : Bytes → Option TopicName
unfolding full_name init_parts parse
init name = elim (full_name name) [ none ↦ none | some full ↦ init_parts full (parse full) ]

unfoldable pub validate : Parts → Bool
unfolding check_name
validate p =
    if not (eq_bytes p.domain (codes "persistent"))
      && not (eq_bytes p.domain (codes "non-persistent"))
    then false
    else if not p.is_v2
        && (not (is_nil p.property)
            && (not (is_nil p.cluster)
                && (not (is_nil p.namespace_portion) && not (is_nil p.local_name))))
    then check_name p.property && (check_name p.cluster && check_name p.namespace_portion)
    else if p.is_v2
        && (not (is_nil p.property)
            && (not (is_nil p.namespace_portion) && not (is_nil p.local_name)))
    then check_name p.property && check_name p.namespace_portion
    else false

unfoldable pub get : Bytes → Option TopicName
unfolding init validate
get name = elim (init name) [ none ↦ none | some t ↦ if validate t.parts then some t else none ]

unfoldable pub to_string : Parts → Bytes
to_string p =
    if p.is_v2 && is_nil p.cluster
    then p.domain
      ++ (scheme_end ++ (p.property ++ (slash ++ (p.namespace_portion ++ (slash ++ p.local_name)))))
    else p.domain
      ++ (scheme_end
          ++ (p.property
              ++ (slash
                  ++ (p.cluster ++ (slash ++ (p.namespace_portion ++ (slash ++ p.local_name)))))))

unfoldable pub remove_domain : Bytes → Bytes
unfolding cut_scheme
remove_domain name = elim (cut_scheme name) [ none ↦ name | some (before, after) ↦ after ]

unfoldable pub contains_domain : Bytes → Bool
unfolding cut_scheme
contains_domain name = elim (cut_scheme name) [ none ↦ false | some (before, after) ↦ true ]

-- `getLookupName`, with the encoded local name that curl returns.
unfoldable pub get_lookup_name : (Bytes → Bytes) → Parts → Bytes
get_lookup_name encode p =
    if p.is_v2 && is_nil p.cluster
    then p.domain
      ++ (slash
          ++ (p.property ++ (slash ++ (p.namespace_portion ++ (slash ++ encode p.local_name)))))
    else p.domain
      ++ (slash
          ++ (p.property
              ++ (slash
                  ++ (p.cluster
                      ++ (slash ++ (p.namespace_portion ++ (slash ++ encode p.local_name)))))))
