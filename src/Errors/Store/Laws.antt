-- ===== src/Errors/Store/Laws.antt =====
-- What an append shows, and what it leaves alone: the backing arrays of the trace slices.
use mathlib.Core.Path.{subst}
use garlic.Common.{
  ℕ, zero, suc, ◌+◌, ◌≤◌, ◌<◌, String, ◌≡◌, refl, sym, ap, ◌∙◌, ◌⊎◌, ◌≢◌, inl, inr, true, false,
  Option, none, some, List, [], ◌∷◌, ◌++◌, arith, length, get_elem?, set, take, ltb, ltb→lt,
  length-append, length-set, get_elem?-set_self, get_elem?-set_ne, get_elem?-append_lt,
  get_elem?-append_length, lt-length_of_get_elem?, Bool-cases, ==_iff, ◌==◌,
}
use garlic.Errors.Store.{Store, Slice, read_slice, append, blanks}

module _ {ℓ} {A : Type ℓ} where
  pub take-set_le : (m n : ℕ) (v : A) (xs : List A) → m ≤ n → take m (set xs n v) ≡ take m xs
  take-set_le zero n v xs h = refl
  take-set_le (suc m) n v [] h = refl
  take-set_le (suc m) zero v (x ∷ xs) h = absurd (omega arith)
  take-set_le (suc m) (suc n) v (x ∷ xs) h = ap (λ t. x ∷ t) (take-set_le m n v xs (omega arith))

  pub take-set-suc :
      (n : ℕ) (v : A) (xs : List A)
      → n < length xs
      → take (suc n) (set xs n v) ≡ take n xs ++ v ∷ []
  take-set-suc n v [] h = absurd (omega arith)
  take-set-suc zero v (x ∷ xs) h = refl
  take-set-suc (suc n) v (x ∷ xs) h = ap (λ t. x ∷ t) (take-set-suc n v xs (omega arith))

  take-append_suc :
      (xs : List A) (v : A) (ys : List A) → take (suc (length xs)) (xs ++ v ∷ ys) ≡ xs ++ v ∷ []
  take-append_suc [] v ys = refl
  take-append_suc (x ∷ xs) v ys = ap (λ t. x ∷ t) (take-append_suc xs v ys)

-- The slice lies within its backing array.
abbrev pub Holds : Store → Option Slice → Type 0
Holds s none = Unit {0}
Holds s (some x) = (a : List String) × (get_elem? s.arrays x.array ≡ some a) × (x.len ≤ length a)

-- An append to `x` writes behind all that `z` shows.
abbrev pub Within : Option Slice → Option Slice → Type 0
Within none x = Unit {0}
Within (some z) none = Unit {0}
Within (some z) (some x) = (z.array ≢ x.array) ⊎ (z.len ≤ x.len)

-- `y` in `s'` is what an append of `v` to `x` in `s` gives: it shows one more line, and every slice
-- that shows nothing behind the end of `x` keeps what it shows.
pub record Appended (s : Store) (x : Option Slice) (v : String) (y : Slice) (s' : Store)
    : Type 0 where
  pub shows : read_slice s' (some y) ≡ read_slice s x ++ v ∷ []
  pub holds : Holds s' (some y)
  pub details : s'.details ≡ s.details
  pub contexts : s'.contexts ≡ s.contexts
  pub others :
      (z : Option Slice)
      → Holds s z
      → Within z x
      → (read_slice s' z ≡ read_slice s z) × Holds s' z × Within z (some y)

pub read_slice-some :
    (s : Store) (x : Slice) (a : List String)
    → get_elem? s.arrays x.array ≡ some a
    → read_slice s (some x) ≡ take x.len a
unfolding read_slice
read_slice-some s x a e = rw (e, read_slice)

module _ (spare : ℕ → ℕ) (s : Store) (v : String) where
  abbrev grown_slice : List String → Slice
  grown_slice shown = record { array = length s.arrays; len = length shown + 1 }

  abbrev grown_store : List String → Store
  grown_store shown = record s {
    arrays = s.arrays ++ (shown ++ v ∷ blanks (spare (length shown + 1))) ∷ [];
  }

  grown-others :
      (shown : List String) (x z : Option Slice)
      → Holds s z
      → (read_slice (grown_store shown) z ≡ read_slice s z)
        × Holds (grown_store shown) z
        × Within z (some (grown_slice shown))
  unfolding read_slice
  grown-others shown x none h = (refl, tt, tt)
  grown-others shown x (some z) (a, e, fits) =
      let before = lt-length_of_get_elem? s.arrays z.array a e in
      let kept = get_elem?-append_lt s.arrays _ z.array before ∙ e in
      (
        read_slice-some (grown_store shown) z a kept ∙ sym (read_slice-some s z a e),
        (a, kept, fits),
        inl (λ same. omega (arith, before)),
      )

  grown-Appended :
      (x : Option Slice) (shown : List String)
      → shown ≡ read_slice s x
      → Appended s x v (grown_slice shown) (grown_store shown)
  grown-Appended x shown same =
      let rest = blanks (spare (length shown + 1)) in
      let stored = get_elem?-append_length s.arrays (shown ++ v ∷ rest) [] in
      let one_more : length shown + 1 ≡ suc (length shown) = omega arith in
      record {
        shows =
            read_slice-some (grown_store shown) (grown_slice shown) (shown ++ v ∷ rest) stored
            ∙ ap (λ n. take n (shown ++ v ∷ rest)) one_more
            ∙ take-append_suc shown v rest
            ∙ ap (λ t. t ++ v ∷ []) same;
        holds = (shown ++ v ∷ rest, stored, omega (arith, length-append shown (v ∷ rest)));
        details = refl;
        contexts = refl;
        others = λ z h w. grown-others shown x z h;
      }

  -- The array has room: the line is written in place.
  module _ (x : Slice) (a : List String) (stored : get_elem? s.arrays x.array ≡ some a)
      (room : x.len < length a) where
    abbrev written : Store
    written = record s { arrays = set s.arrays x.array (set a x.len v) }

    abbrev longer : Slice
    longer = record x { len = x.len + 1 }

    stored_after : get_elem? written.arrays x.array ≡ some (set a x.len v)
    stored_after =
        get_elem?-set_self s.arrays x.array (set a x.len v)
          (lt-length_of_get_elem? s.arrays x.array a stored)

    written-others :
        (z : Option Slice)
        → Holds s z
        → Within z (some x)
        → (read_slice written z ≡ read_slice s z) × Holds written z × Within z (some longer)
    unfolding read_slice
    written-others none h w = (refl, tt, tt)
    written-others (some z) (b, e, fits) w = elim (Bool-cases (z.array == x.array)) [
      | inr apart ↦
          let differ : x.array ≢ z.array = ground arith in
          let kept = get_elem?-set_ne s.arrays x.array z.array (set a x.len v) differ ∙ e in
          (
            read_slice-some written z b kept ∙ sym (read_slice-some s z b e),
            (b, kept, fits),
            inl (λ same. differ (sym same)),
          )
      | inl same ↦
          let q = (==_iff z.array x.array).0 same in
          let e' : get_elem? s.arrays x.array ≡ some b =
            subst (λ (i : ℕ). get_elem? s.arrays i ≡ some b) q e in
          let a-eq-b : a ≡ b = cc (stored, e') in
          let after : get_elem? written.arrays z.array ≡ some (set a x.len v) =
            subst (λ (i : ℕ). get_elem? written.arrays i ≡ some (set a x.len v)) (sym q)
              stored_after in
          let below : z.len ≤ x.len = elim w [ inl ne ↦ absurd (ne q) | inr le ↦ le ] in
          (
            read_slice-some written z (set a x.len v) after
                ∙ take-set_le z.len x.len v a below
                ∙ ap (take z.len) a-eq-b
                ∙ sym (read_slice-some s z b e),
            (set a x.len v, after, omega (arith, length-set a x.len v)),
            inr (omega arith),
          )
    ]

    written-Appended : Appended s (some x) v longer written
    written-Appended =
        let one_more : x.len + 1 ≡ suc x.len = omega arith in
        record {
          shows =
              read_slice-some written longer (set a x.len v) stored_after
              ∙ ap (λ n. take n (set a x.len v)) one_more
              ∙ take-set-suc x.len v a room
              ∙ ap (λ t. t ++ v ∷ []) (sym (read_slice-some s x a stored));
          holds = (set a x.len v, stored_after, omega (arith, length-set a x.len v));
          details = refl;
          contexts = refl;
          others = written-others;
        }

  pub append_in_place :
      (x : Slice) (a : List String)
      → get_elem? s.arrays x.array ≡ some a
      → x.len < length a
      → append spare (some x) v s
        ≡ some (
          record x { len = x.len + 1 },
          record s { arrays = set s.arrays x.array (set a x.len v) },
        )
  unfolding append blanks
  append_in_place x a e room =
      let fits : ltb x.len (length a) ≡ true = ground arith in rw (append, e, fits)

  append_copies :
      (x : Slice) (a : List String)
      → get_elem? s.arrays x.array ≡ some a
      → ltb x.len (length a) ≡ false
      → append spare (some x) v s ≡ some (grown_slice (take x.len a), grown_store (take x.len a))
  unfolding append blanks
  append_copies x a e full = rw (append, e, full)

  -- An append to a slice that lies within its array never fails.
  pub append-Appended :
      (x : Option Slice)
      → Holds s x
      → (y : Slice) × (s' : Store) × (append spare x v s ≡ some (y, s')) × Appended s x v y s'
  unfolding append read_slice
  append-Appended none h = (grown_slice [], grown_store [], refl, grown-Appended none [] refl)
  append-Appended (some x) (a, e, fits) = elim (Bool-cases (ltb x.len (length a))) [
    | inl room ↦
        let room' = ltb→lt x.len (length a) room in
        (
          longer x a e room',
          written x a e room',
          append_in_place x a e room',
          written-Appended x a e room',
        )
    | inr full ↦
        let shown = take x.len a in
        (
          grown_slice shown,
          grown_store shown,
          append_copies x a e full,
          grown-Appended (some x) shown (sym (read_slice-some s x a e)),
        )
  ]
