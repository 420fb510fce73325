-- ===== src/Pita/Uses.antt =====
-- The life of pita.c: its loading, the uses of its file, and its unloading.
use mathlib.Core.List.{map, map-append}
use yu.Prelude.Calls.{collect-append}
use yu.Prelude.{
  ℕ, ◌≡◌, refl, ap, ap₂, ◌∙◌, Bool, true, false, not, ◌&&◌, ◌==◌, leb, ltb, ◌+◌, Option, none, some,
  List, [], ◌∷◌, ◌++◌, if◌then◌else◌, append-nil, append_assoc, Option-cases, Bool-cases, inl, inr,
  arith,
}
use yu.Prelude.Int.{ℤ, pos, is_negative}
use yu.Prelude.Trace.{Run, run, ◌>>=◌, ◌>>◌, pure, done}
use yu.Pita.{
  Event, say_tracing, say_unloaded, debugfs_remove_recursive, trace_pita, to_unsigned, State,
  Answers, Memory, store_int, einval, to_ssize, test_fops, pita_init, pita_exit,
}
use yu.Pita.Files.{Entries, nothing, follow}
use yu.Pita.Writes.{traced, traced_by, to_int, FitsInt, found, to_int-to_unsigned}

-- What programs ask of the file: a write has a text and its size, a seek an offset and an origin.
pub data Request : Type 0 where
  opening : Request
  reading : ℕ → Request
  writing : List ℕ → ℕ → Request
  seeking : ℤ → ℤ → Request

-- The parser and the seek of the kernel, and the address of `depends`.
module _ (kstrtoint_from_user : List ℕ → ℕ → Option ℤ) (default_llseek : ℤ → ℤ → ℤ)
    (depends : ℕ) where
  serve : State → Request → Run Event (State × ℤ)
  unfolding test_fops
  serve s opening = pure ((test_fops default_llseek).open_ depends s)
  serve s (reading cnt) = pure (s, (test_fops default_llseek).read cnt)
  serve s (writing text cnt) = do
    ret ← (test_fops default_llseek).write (kstrtoint_from_user text cnt) cnt
    pure (s, ret)
  serve s (seeking offset whence) = pure (s, (test_fops default_llseek).llseek offset whence)

  serve_all : State → List Request → Run Event (State × List ℤ)
  unfolding serve
  serve_all s [] = pure (s, [])
  serve_all s (r ∷ rs) = do
    first ← serve s r
    rest ← serve_all first.0 rs
    pure (rest.0, first.1 ∷ rest.1)

  -- A module that returns a negative number is refused: its file is not used.
  used : List Request → State × ℤ → Run Event (State × List ℤ)
  unfolding serve_all pita_exit
  used rs (s, ret) =
      if is_negative ret
      then pure (s, [])
      else (do served ← serve_all s rs; pita_exit served.0; pure served)

  pub life : Answers → State → List Request → Run Event (State × List ℤ)
  unfolding pita_init used
  life a s rs = pita_init a s >>= used rs

  -- What is expected of the requests.
  abbrev pub result : Request → ℤ
  result (writing text cnt) = elim (kstrtoint_from_user text cnt) [
    | none ↦ einval
    | some z ↦ to_ssize cnt
  ]
  result (seeking offset whence) = default_llseek offset whence
  result _ = pos 0

  abbrev pub written : List Request → List ℤ
  written [] = []
  written (writing text cnt ∷ rs) = found (kstrtoint_from_user text cnt) (written rs)
  written (_ ∷ rs) = written rs

  abbrev cleared : Memory → List Request → Memory
  cleared m [] = m
  cleared m (opening ∷ rs) = cleared (store_int m depends 0) rs
  cleared m (_ ∷ rs) = cleared m rs

  abbrev pub opens : List Request → Bool
  opens [] = false
  opens (opening ∷ rs) = true
  opens (_ ∷ rs) = opens rs

  abbrev pub in_depends : ℕ → Bool
  in_depends q = leb depends q && ltb q (depends + 4)

  cleared_lem :
      (m : Memory) (rs : List Request) (q : ℕ)
      → cleared m rs q ≡ (if opens rs && in_depends q then 0 else m q)
  unfolding store_int
  cleared_lem m [] q = refl
  cleared_lem m (opening ∷ rs) q = ground (arith, cleared_lem (store_int m depends 0) rs q)
  cleared_lem m (reading cnt ∷ rs) q = cleared_lem m rs q
  cleared_lem m (writing text cnt ∷ rs) q = cleared_lem m rs q
  cleared_lem m (seeking offset whence ∷ rs) q = cleared_lem m rs q

  abbrev pub final : State → List Request → State
  final s rs = record s { memory = cleared s.memory rs }

  record Serves (s : State) (rs : List Request) (r : Run Event (State × List ℤ)) : Type 0 where
    ended : r.outcome ≡ done (final s rs, map result rs)
    traces : map to_int (traced r.calls) ≡ written rs
    quiet : (st : Entries) (fs : List Event) → follow st (r.calls ++ fs) ≡ follow st fs

  -- The calls for one request in front of those for the others.
  served-cons :
      (s s' : State) (req : Request) (rs : List Request) (es : List Event) (z : ℤ)
      → serve s req ≡ run es (done (s', z))
      → z ≡ result req
      → final s' rs ≡ final s (req ∷ rs)
      → map to_int (traced es) ++ written rs ≡ written (req ∷ rs)
      → ((st : Entries) (fs : List Event) → follow st (es ++ fs) ≡ follow st fs)
      → Serves s' rs (serve_all s' rs)
      → Serves s (req ∷ rs) (serve_all s (req ∷ rs))
  unfolding serve_all
  served-cons s s' req rs es z e known same numbers none_made rest =
      let fs = (serve_all s' rs).calls in
      rw (e, rest.ended)
        (record {
          ended = ap₂ (λ t y. done (t, y ∷ map result rs)) same known;
          traces =
              ap (λ gs. map to_int (traced (es ++ gs))) (append-nil fs)
              ∙ ap (map to_int) (collect-append traced_by es fs)
              ∙ map-append to_int (traced es) (traced fs)
              ∙ ap (λ zs. map to_int (traced es) ++ zs) rest.traces
              ∙ numbers;
          quiet = λ st gs.
              ap (λ hs. follow st ((es ++ hs) ++ gs)) (append-nil fs)
              ∙ ap (follow st) (append_assoc es fs gs)
              ∙ none_made st (fs ++ gs)
              ∙ rest.quiet st gs;
        })

  module _
      (fits : (text : List ℕ) (cnt : ℕ) (z : ℤ)
        → kstrtoint_from_user text cnt ≡ some z
        → FitsInt z) where
    serve_all-Serves : (s : State) (rs : List Request) → Serves s rs (serve_all s rs)
    unfolding serve_all serve test_fops
    serve_all-Serves s [] = record { ended = refl; traces = refl; quiet = λ st fs. refl }
    serve_all-Serves s (opening ∷ rs) =
        served-cons s (record s { memory = store_int s.memory depends 0 }) opening rs [] (pos 0)
          refl refl refl refl (λ st fs. refl)
          (serve_all-Serves (record s { memory = store_int s.memory depends 0 }) rs)
    serve_all-Serves s (reading cnt ∷ rs) =
        served-cons s s (reading cnt) rs [] (pos 0) refl refl refl refl (λ st fs. refl)
          (serve_all-Serves s rs)
    serve_all-Serves s (writing text cnt ∷ rs) =
        elim (Option-cases (kstrtoint_from_user text cnt)) [
          | inl bad ↦
              served-cons s s (writing text cnt) rs [] einval (rw bad refl) (rw (bad, result) refl)
                refl (rw bad refl) (λ st fs. refl) (serve_all-Serves s rs)
          | inr (z, good) ↦
              served-cons s s (writing text cnt) rs (say_tracing ∷ trace_pita (to_unsigned z) ∷ [])
                (to_ssize cnt) (rw good refl) (rw (good, result) refl) refl
                (rw good (ap (λ y. y ∷ written rs) (to_int-to_unsigned z (fits text cnt z good))))
                (λ st fs. refl) (serve_all-Serves s rs)
        ]
    serve_all-Serves s (seeking offset whence ∷ rs) =
        served-cons s s (seeking offset whence) rs [] (default_llseek offset whence) refl refl refl
          refl (λ st fs. refl) (serve_all-Serves s rs)

    -- Of a module that is loaded, that programs open, read, write and seek in any order if both entries
    -- are created, and that is then unloaded, where the kernel's parser finds only what an `int` can
    -- hold: the life ends; without both entries no use is made of it, and else each request returns what
    -- is expected of it, -22 for a text that is no number; the events hold, read as `int`, the numbers
    -- of the texts, in order; no entry is left; and the memory is what it was, but for the four bytes
    -- from `depends` on, which are 0 once the file was opened.
    pub life-requests :
        (a : Answers) (s : State) (rs : List Request)
        → let ok = not (a.dir == 0) && not (a.file == 0) in
          let r = life a s rs in
          (s' : State) × (r.outcome ≡ done (s', (if ok then map result rs else [])))
          × (map to_int (traced r.calls) ≡ (if ok then written rs else []))
          × (follow nothing r.calls ≡ nothing)
          × ((q : ℕ) → s'.memory q ≡ (if ok && (opens rs && in_depends q) then 0 else s.memory q))
    unfolding life pita_init pita_exit
    life-requests a s rs = elim (Bool-cases (a.dir == 0)) [
      | inl none_made ↦
          rw none_made (record s { d_pita = a.dir }, refl, refl, rw none_made refl, λ q. refl)
      | inr dir ↦ elim (Bool-cases (a.file == 0)) [
        | inl none_made ↦
            rw (dir, none_made)
              (record s { d_pita = a.dir; d_test = a.file }, refl, refl, ground arith, λ q. refl)
        | inr file ↦
            let full = record s { d_pita = a.dir; d_test = a.file } in
            let served = serve_all-Serves full rs in
            rw (dir, file, served.ended)
              (
                final full rs,
                refl,
                ap (map to_int) (
                      collect-append traced_by (serve_all full rs).calls
                        (debugfs_remove_recursive a.dir ∷ say_unloaded ∷ [])
                      ∙ append-nil (traced (serve_all full rs).calls))
                    ∙ served.traces,
                served.quiet _ (debugfs_remove_recursive a.dir ∷ say_unloaded ∷ []) ∙ ground arith,
                λ q. cleared_lem s.memory rs q,
              )
      ]
    ]
