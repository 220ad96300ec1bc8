-- ===== src/TopicName/RoundTrip.antt =====
-- Printing and parsing topic names.
use pulsar_client_cpp.Prelude.{
  ℕ, suc, ◌≡◌, ◌≢◌, refl, ap, ◌∙◌, inl, inr, true, false, some, List, [], ◌∷◌, ◌++◌, ◌==◌, arith,
  Bool-cases,
}
use pulsar_client_cpp.TopicName.{
  Bytes, slash, scheme_end, cut_scheme, push_front, split, after_slashes, Parts, parse, to_string,
}

-- The byte does not occur.
abbrev pub Lacks : ℕ → Bytes → Type 0
Lacks b [] = Unit {0}
Lacks b (c ∷ cs) = (c ≢ b) × Lacks b cs

cut_scheme-append :
    (d rest : Bytes) → Lacks b':' d → cut_scheme (d ++ (scheme_end ++ rest)) ≡ some (d, rest)
unfolding cut_scheme
cut_scheme-append [] rest h = refl
cut_scheme-append (a ∷ []) rest h = ground arith
cut_scheme-append (a ∷ b ∷ []) rest h = ground arith
cut_scheme-append (a ∷ b ∷ c ∷ d) rest h = ground (arith, cut_scheme-append (b ∷ c ∷ d) rest h.1)

split-append : (t rest : Bytes) → Lacks b'/' t → split (t ++ (slash ++ rest)) ≡ t ∷ split rest
unfolding split
split-append [] rest h = refl
split-append (c ∷ t) rest h = ground (arith, split-append t rest h.1)

split-Lacks : (t : Bytes) → Lacks b'/' t → split t ≡ t ∷ []
unfolding split
split-Lacks [] h = refl
split-Lacks (c ∷ t) h = ground (arith, split-Lacks t h.1)

after_slashes-append :
    (n : ℕ) (t rest : Bytes)
    → Lacks b'/' t
    → after_slashes (suc n) (t ++ (slash ++ rest)) ≡ after_slashes n rest
unfolding after_slashes
after_slashes-append n [] rest h = refl
after_slashes-append n (c ∷ t) rest h = ground (arith, after_slashes-append n t rest h.1)

-- The parts of a topic name without a cluster.
abbrev pub v2 : Bytes → Bytes → Bytes → Bytes → Parts
v2 d p n l = record {
  is_v2 = true;
  domain = d;
  property = p;
  cluster = [];
  namespace_portion = n;
  local_name = l;
}

abbrev pub v1 : Bytes → Bytes → Bytes → Bytes → Bytes → Parts
v1 d p c n l = record {
  is_v2 = false;
  domain = d;
  property = p;
  cluster = c;
  namespace_portion = n;
  local_name = l;
}

after_none : (cs : Bytes) → after_slashes 0 cs ≡ cs
unfolding after_slashes
after_none cs = refl

abbrev joined : Bytes → Bytes → Bytes
joined t rest = t ++ (slash ++ rest)

three_parts :
    (a b c l : Bytes)
    → Lacks b'/' a
    → Lacks b'/' b
    → Lacks b'/' c
    → (split (joined a (joined b (joined c l))) ≡ a ∷ b ∷ c ∷ split l)
      × (after_slashes 3 (joined a (joined b (joined c l))) ≡ l)
three_parts a b c l ha hb hc = (
  split-append a _ ha
      ∙ ap (λ ts. a ∷ ts) (split-append b _ hb ∙ ap (λ ts. b ∷ ts) (split-append c l hc)),
  after_slashes-append 2 a _ ha
      ∙ after_slashes-append 1 b _ hb
      ∙ after_slashes-append 0 c l hc
      ∙ after_none l,
)

-- A topic name without a cluster is read back from its text into the same parts, when the domain
-- holds no ':' and no part a '/'.
pub parse-to_string-v2 :
    (d p n l : Bytes)
    → Lacks b':' d
    → Lacks b'/' d
    → Lacks b'/' p
    → Lacks b'/' n
    → Lacks b'/' l
    → parse (to_string (v2 d p n l)) ≡ v2 d p n l
unfolding parse to_string
parse-to_string-v2 d p n l hc hd hp hn hl =
    let (parts, rest) = three_parts d p n l hd hp hn in
    rw (cut_scheme-append d (joined p (joined n l)) hc)
      (rw parts (rw (split-Lacks l hl) (ap (λ t. v2 d p n t) rest)))

-- Splitting a text yields a first part.
split-cons : (t : Bytes) → (a : Bytes) × (rest : List Bytes) × (split t ≡ a ∷ rest)
unfolding split
split-cons [] = ([], [], refl)
split-cons (c ∷ t) = elim (Bool-cases (c == b'/')) [
  | inl is_slash ↦ ([], split t, rw is_slash refl)
  | inr other ↦ let (a, rest, e) = split-cons t in (c ∷ a, rest, rw other (ap (push_front c) e))
]

four_slashes :
    (a b c d l : Bytes)
    → Lacks b'/' a
    → Lacks b'/' b
    → Lacks b'/' c
    → Lacks b'/' d
    → after_slashes 4 (joined a (joined b (joined c (joined d l)))) ≡ l
four_slashes a b c d l ha hb hc hd =
    after_slashes-append 3 a _ ha
    ∙ after_slashes-append 2 b _ hb
    ∙ after_slashes-append 1 c _ hc
    ∙ after_slashes-append 0 d l hd
    ∙ after_none l

-- A topic name with a cluster is read back from its text into the same parts too, when the domain
-- holds no ':' and no part but the local name a '/'.
parse-to_string-v1 :
    (d p c n l : Bytes)
    → Lacks b':' d
    → Lacks b'/' d
    → Lacks b'/' p
    → Lacks b'/' c
    → Lacks b'/' n
    → parse (to_string (v1 d p c n l)) ≡ v1 d p c n l
unfolding parse to_string
parse-to_string-v1 d p c n l hd hs hp hc hn =
    let (parts, rest) = three_parts d p c (joined n l) hs hp hc in
    let (a, others, e) = split-cons l in
    rw (cut_scheme-append d (joined p (joined c (joined n l))) hd) (
      rw parts (
        rw (split-append n l hn)
          (rw e (ap (λ t. v1 d p c n t) (four_slashes d p c n l hs hp hc hn)))))
