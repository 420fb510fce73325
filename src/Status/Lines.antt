-- ===== src/Status/Lines.antt =====
-- The lines of a file, apart from the buffer, and what `fgets` and `strstr` have to do with them.
use yu.Prelude.{
  ℕ, zero, suc, ◌≤◌, ◌≡◌, ◌↔◌, inl, inr, refl, ap, ◌∙◌, true, false, List, [], ◌∷◌, ◌++◌, ◌==◌,
  if◌then◌else◌, length, arith, Bool-cases,
}
use yu.Prelude.CString.{NoNull}
use yu.Status.Text.{newline, chunk, starts_with, contains}

-- A byte in front of the first line.
unfoldable pub extend : ℕ → List (List ℕ) → List (List ℕ)
extend c [] = (c ∷ []) ∷ []
extend c (l ∷ ls) = (c ∷ l) ∷ ls

-- The lines of a file, each with its newline; the last may have none.
unfoldable pub lines : List ℕ → List (List ℕ)
lines [] = []
lines (c ∷ cs) = if c == newline then (c ∷ []) ∷ lines cs else extend c (lines cs)

abbrev pub All : (List ℕ → Type 0) → List (List ℕ) → Type 0
All P [] = Unit {0}
All P (l ∷ ls) = P l × All P ls

-- A chunk and the rest are the bytes read from.
pub chunk-append : (room : ℕ) (cs : List ℕ) → (chunk room cs).0 ++ (chunk room cs).1 ≡ cs
unfolding chunk
chunk-append zero cs = refl
chunk-append (suc room) [] = refl
chunk-append (suc room) (c ∷ cs) = ground (arith, chunk-append room cs)

-- With room, a chunk takes at least one byte.
pub chunk-lt : (room c : ℕ) (cs : List ℕ) → length (chunk (suc room) (c ∷ cs)).1 ≤ length cs
unfolding chunk
chunk-lt zero c cs = ground arith
chunk-lt (suc room) c [] = ground arith
chunk-lt (suc room) c (d ∷ cs) = ground (arith, chunk-lt room d cs)

pub NoNull-chunk :
    (room : ℕ) (cs : List ℕ) → NoNull cs → NoNull (chunk room cs).0 × NoNull (chunk room cs).1
unfolding chunk
NoNull-chunk zero cs h = (tt, h)
NoNull-chunk (suc room) [] h = (tt, tt)
NoNull-chunk (suc room) (c ∷ cs) h = ground (arith, NoNull-chunk room cs h.1)

abbrev pub FirstFits : ℕ → List (List ℕ) → Type 0
FirstFits n [] = Unit {0}
FirstFits n (l ∷ ls) = length l ≤ n

lines-newline : (c : ℕ) (cs : List ℕ) → (c == newline) ≡ true → lines (c ∷ cs) ≡ (c ∷ []) ∷ lines cs
unfolding lines
lines-newline c cs e = rw e

lines-other : (c : ℕ) (cs : List ℕ) → (c == newline) ≡ false → lines (c ∷ cs) ≡ extend c (lines cs)
unfolding lines
lines-other c cs e = rw e

chunk-newline :
    (room c : ℕ) (cs : List ℕ) → (c == newline) ≡ true → chunk (suc room) (c ∷ cs) ≡ (c ∷ [], cs)
unfolding chunk
chunk-newline room c cs e = rw e

chunk-other :
    (room c : ℕ) (cs : List ℕ)
    → (c == newline) ≡ false
    → chunk (suc room) (c ∷ cs) ≡ (c ∷ (chunk room cs).0, (chunk room cs).1)
unfolding chunk
chunk-other room c cs e = rw e

-- A line holds at least one byte.
lines-cons :
    (c : ℕ) (cs : List ℕ) → (l : List ℕ) × (ls : List (List ℕ)) × (lines (c ∷ cs) ≡ (c ∷ l) ∷ ls)
lines-cons c cs = elim (Bool-cases (c == newline)) [
  | inl e ↦ ([], lines cs, lines-newline c cs e)
  | inr e ↦ let (l, ls, q) = extend-cons c (lines cs) in (l, ls, lines-other c cs e ∙ q)
]
  where
    extend-cons :
        (d : ℕ) (ms : List (List ℕ))
        → (l : List ℕ) × (ls : List (List ℕ)) × (extend d ms ≡ (d ∷ l) ∷ ls)
    extend-cons d [] = ([], [], unfold extend in refl)
    extend-cons d (m ∷ ms) = (m, ms, unfold extend in refl)

FirstFits-extend :
    (n c d : ℕ) (cs : List ℕ)
    → FirstFits (suc n) (extend c (lines (d ∷ cs)))
    → FirstFits n (lines (d ∷ cs)) × (1 ≤ n)
unfolding extend
FirstFits-extend n c d cs h =
    let (l, ls, e) = lines-cons d cs in let k = rw (e, extend) at h in rw e (omega arith)

chunk-empty : (room : ℕ) → chunk room [] ≡ ([], [])
unfolding chunk
chunk-empty zero = refl
chunk-empty (suc room) = refl

lines-last : (c : ℕ) → extend c (lines []) ≡ (c ∷ []) ∷ lines []
unfolding lines extend
lines-last c = refl

extend-first :
    (c : ℕ) {l : List ℕ} {ls ms : List (List ℕ)} → ms ≡ l ∷ ls → extend c ms ≡ (c ∷ l) ∷ ls
unfolding extend
extend-first c e = rw e

-- Where the first line fits the room, the chunk is that line.
pub lines-chunk :
    (room c : ℕ) (cs : List ℕ)
    → FirstFits (suc room) (lines (c ∷ cs))
    → lines (c ∷ cs) ≡ (chunk (suc room) (c ∷ cs)).0 ∷ lines (chunk (suc room) (c ∷ cs)).1
lines-chunk room c [] h = elim (Bool-cases (c == newline)) [
  | inl e ↦ rw (chunk-newline room c [] e) (lines-newline c [] e)
  | inr e ↦ rw (chunk-other room c [] e, lines-other c [] e, chunk-empty room) (lines-last c)
]
lines-chunk zero c (d ∷ cs) h = elim (Bool-cases (c == newline)) [
  | inl e ↦ rw (chunk-newline 0 c (d ∷ cs) e) (lines-newline c (d ∷ cs) e)
  | inr e ↦ absurd (omega (arith, FirstFits-extend 0 c d cs (rw (lines-other c (d ∷ cs) e) at h)))
]
lines-chunk (suc room) c (d ∷ cs) h = elim (Bool-cases (c == newline)) [
  | inl e ↦ rw (chunk-newline (suc room) c (d ∷ cs) e) (lines-newline c (d ∷ cs) e)
  | inr e ↦
      let k = (FirstFits-extend (suc room) c d cs (rw (lines-other c (d ∷ cs) e) at h)).0 in
      rw (chunk-other (suc room) c (d ∷ cs) e, lines-other c (d ∷ cs) e)
        (extend-first c (lines-chunk room d cs k))
]

starts_with-append : (str post : List ℕ) → starts_with str (str ++ post) ≡ true
unfolding starts_with
starts_with-append [] post = refl
starts_with-append (c ∷ str) post = ground (arith, starts_with-append str post)

starts_with-split :
    (str line : List ℕ) → starts_with str line ≡ true → (post : List ℕ) × (line ≡ str ++ post)
unfolding starts_with
starts_with-split [] line h = (line, refl)
starts_with-split (c ∷ str) [] h = absurd (cc)
starts_with-split (c ∷ str) (d ∷ line) h =
    let (post, e) = starts_with-split str line (ground arith) in (post, ground arith)

contains-append : (pre str post : List ℕ) → contains str (pre ++ (str ++ post)) ≡ true
unfolding contains
contains-append [] str post = go (str ++ post) (starts_with-append str post)
  where
    go : (line : List ℕ) → starts_with str line ≡ true → contains str line ≡ true
    go [] h = h
    go (c ∷ line) h = rw h
contains-append (c ∷ pre) str post = ground (arith, contains-append pre str post)

contains-split :
    (str line : List ℕ)
    → contains str line ≡ true
    → (pre : List ℕ) × (post : List ℕ) × (line ≡ pre ++ (str ++ post))
unfolding contains
contains-split str [] h = let (post, e) = starts_with-split str [] h in ([], post, e)
contains-split str (c ∷ line) h = elim (Bool-cases (starts_with str (c ∷ line))) [
  | inl here ↦ let (post, e) = starts_with-split str (c ∷ line) here in ([], post, e)
  | inr later ↦
      let (pre, post, e) = contains-split str line (rw later at h) in (c ∷ pre, post, ap (◌∷◌ c) e)
]

-- `strstr` finds a string exactly when the line is something, the string, and something.
pub contains_iff :
    (str line : List ℕ)
    → (contains str line ≡ true)
      ↔ ((pre : List ℕ) × (post : List ℕ) × (line ≡ pre ++ (str ++ post)))
contains_iff str line =
    (contains-split str line, λ (pre, post, e). rw e (contains-append pre str post))
