-- ===== src/Proxy/Numbering.antt =====
-- cmd/dark-canary/proxy.go: the numbers that requests are mirrored under, `n` and the correlation ids.
use mathlib.Core.Path.{subst}
use dark_canary.Prelude.{
  ℕ, ◌+◌, ◌≤◌, ◌<◌, ◌≡◌, refl, sym, ap, ◌∙◌, false, List, [], ◌∷◌, ◌++◌, arith, nat_eq, All,
  All-map, Distinct, Distinct-move, Distinct-drop, contains, true, Bool-cases, inl, inr, ◌==◌,
  Bytes, bytes_eq, bytes_beq_iff, nat_beq_iff,
}
use dark_canary.Collector.Types.{Capture}
use dark_canary.Proxy.Number.{read36}
use dark_canary.Proxy.Mirror.{Flight}

abbrev pub numbers : List Flight → List ℕ
numbers [] = []
numbers (f ∷ fs) = f.number ∷ numbers fs

-- The requests that are going on and those whose capture is filed have different numbers, up to the last
-- one drawn.
pub record IsNumbered (n : ℕ) (going : List Flight) (filed : List ℕ) : Type 0 where
  pub distinct : Distinct (numbers going ++ filed)
  pub drawn : All (λ k. k ≤ n) (numbers going ++ filed)

-- The correlation ids of captures, and the numbers that they are to be read as.
abbrev pub ids : List Capture → List Bytes
ids [] = []
ids (c ∷ cs) = c.correl_id ∷ ids cs

abbrev pub id_numbers : List Capture → List ℕ
id_numbers [] = []
id_numbers (c ∷ cs) = read36 0 c.correl_id ∷ id_numbers cs

new_number :
    (id : Bytes) (cs : List Capture)
    → contains (read36 0 id) (id_numbers cs) ≡ false
    → contains id (ids cs) ≡ false
unfolding contains
new_number id [] h = refl
new_number id (c ∷ cs) h = elim (Bool-cases (c.correl_id == id)) [
  | inl same ↦
      let same_id : c.correl_id ≡ id = (bytes_beq_iff c.correl_id id).0 same in
      let same_number : (read36 0 c.correl_id == read36 0 id) ≡ true =
        (nat_beq_iff (read36 0 c.correl_id) (read36 0 id)).1 (ap (read36 0) same_id) in
      absurd (ground arith)
  | inr other ↦ rw other (new_number id cs (ground arith))
]

new_ids : (cs : List Capture) → Distinct (id_numbers cs) → Distinct (ids cs)
new_ids [] h = tt
new_ids (c ∷ cs) h = (new_number c.correl_id cs h.0, new_ids cs h.1)

Distinct-behind : (ks js : List ℕ) → Distinct (ks ++ js) → Distinct js
Distinct-behind [] js h = h
Distinct-behind (k ∷ ks) js h = Distinct-behind ks js h.1

-- Filed captures whose ids are read as different numbers have different ids.
pub IsNumbered-ids :
    {n : ℕ} {going : List Flight} (cs : List Capture)
    → IsNumbered n going (id_numbers cs)
    → Distinct (ids cs)
IsNumbered-ids {n} {going} cs h =
    new_ids cs (Distinct-behind (numbers going) (id_numbers cs) h.distinct)

numbers-append :
    (l : List Flight) (f : Flight) (r : List Flight)
    → numbers (l ++ f ∷ r) ≡ numbers l ++ f.number ∷ numbers r
numbers-append [] f r = refl
numbers-append (g ∷ l) f r = ap (λ ks. g.number ∷ ks) (numbers-append l f r)

numbers-rest : (l r : List Flight) → numbers (l ++ r) ≡ numbers l ++ numbers r
numbers-rest [] r = refl
numbers-rest (g ∷ l) r = ap (λ ks. g.number ∷ ks) (numbers-rest l r)

contains-drawn : (n k : ℕ) (ks : List ℕ) → n < k → All (λ j. j ≤ n) ks → contains k ks ≡ false
unfolding contains
contains-drawn n k [] h d = refl
contains-drawn n k (j ∷ ks) h d = ground (arith, d.0, contains-drawn n k ks h d.1)

All-move {ℓ} :
    {A : Type 0} (P : A → Type ℓ) (x : A) (l r d : List A)
    → All P ((l ++ x ∷ r) ++ d)
    → P x × All P ((l ++ r) ++ d)
All-move P x [] r d h = (h.0, h.1)
All-move P x (y ∷ l) r d h = let (here, rest) = All-move P x l r d h.1 in (here, (h.0, rest))

All-insert {ℓ} :
    {A : Type 0} (P : A → Type ℓ) (x : A) (l d : List A) → P x → All P (l ++ d) → All P (l ++ x ∷ d)
All-insert P x [] d p h = (p, h)
All-insert P x (y ∷ l) d p h = (h.0, All-insert P x l d p h.1)

-- A number that no request is mirrored under.
pub IsNumbered-later :
    {n : ℕ} {going : List Flight} {filed : List ℕ}
    → IsNumbered n going filed
    → IsNumbered (n + 1) going filed
IsNumbered-later {n} {going} {filed} h = record {
  distinct = h.distinct;
  drawn =
      All-map (λ k. k ≤ n) (λ k. k ≤ n + 1) (numbers going ++ filed) (λ k le. omega arith) h.drawn;
}

-- The next number is new.
pub IsNumbered-next :
    (f : Flight) {n : ℕ} {going : List Flight} {filed : List ℕ}
    → f.number ≡ n + 1
    → IsNumbered n going filed
    → IsNumbered (n + 1) (f ∷ going) filed
IsNumbered-next f {n} {going} {filed} e h = record {
  distinct = (contains-drawn n f.number (numbers going ++ filed) (omega arith) h.drawn, h.distinct);
  drawn = (
    omega arith,
    All-map (λ k. k ≤ n) (λ k. k ≤ n + 1) (numbers going ++ filed) (λ k le. omega arith) h.drawn,
  );
}

from_numbers :
    {n : ℕ} {going : List Flight} {filed : List ℕ} (ks : List ℕ)
    → numbers going ≡ ks
    → Distinct (ks ++ filed)
    → All (λ k. k ≤ n) (ks ++ filed)
    → IsNumbered n going filed
from_numbers {n} {going} {filed} ks e d a = record {
  distinct = subst (λ js. Distinct (js ++ filed)) (sym e) d;
  drawn = subst (λ js. All (λ k. k ≤ n) (js ++ filed)) (sym e) a;
}

module _ (l : List Flight) (f : Flight) (r : List Flight) {n : ℕ} {going : List Flight}
    {filed : List ℕ} (e : going ≡ l ++ f ∷ r) (h : IsNumbered n going filed) where
  split : numbers going ++ filed ≡ (numbers l ++ f.number ∷ numbers r) ++ filed
  split = ap (λ fs. numbers fs ++ filed) e ∙ ap (λ ks. ks ++ filed) (numbers-append l f r)

  -- A request that ends with a capture under its number.
  pub IsNumbered-file : (k : ℕ) → k ≡ f.number → IsNumbered n (l ++ r) (k ∷ filed)
  IsNumbered-file k same =
      subst (λ j. IsNumbered n (l ++ r) (j ∷ filed)) (sym same)
        (let (last, rest) =
            All-move (λ k. k ≤ n) f.number (numbers l) (numbers r) filed
              (subst (All (λ k. k ≤ n)) split h.drawn) in
          from_numbers (numbers l ++ numbers r) (numbers-rest l r)
            (Distinct-move f.number (numbers l) (numbers r) filed (subst Distinct split h.distinct))
            (All-insert (λ k. k ≤ n) f.number (numbers l ++ numbers r) filed last rest))

  -- A request that ends without one.
  pub IsNumbered-drop : IsNumbered n (l ++ r) filed
  IsNumbered-drop =
      from_numbers (numbers l ++ numbers r) (numbers-rest l r)
        (Distinct-drop f.number (numbers l) (numbers r) filed (subst Distinct split h.distinct))
        (All-move (λ k. k ≤ n) f.number (numbers l) (numbers r) filed
          (subst (All (λ k. k ≤ n)) split h.drawn)).1
