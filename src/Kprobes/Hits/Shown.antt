-- ===== src/Kprobes/Hits/Shown.antt =====
-- What the handlers of kprobe_example.c show.
use mathlib.Core.Path.{subst}
use yu.Prelude.Calls.{collect-append}
use yu.Prelude.{
  ℕ, ◌≡◌, refl, sym, ap, ap₂, ◌∙◌, Bool, true, false, List, [], ◌∷◌, ◌++◌, if◌then◌else◌,
  append-nil, append_assoc,
}
use yu.Prelude.Int.{ℤ, pos, negsuc, is_negative}
use yu.Prelude.Trace.{Run, ◌>>=◌, ◌>>◌, pure, call, done}
use yu.Kprobes.{
  Event, Arch, x86, ppc, mips, tilegx, arm64, say_pre, say_post, say_fault, dump_stack, unregister,
  say_unregistered,
}
use yu.Kprobes.Kprobe.{Config, PtRegs, Kprobe, handler_pre, handler_post, handler_fault, ifdef}
use yu.Kprobes.Install.{held, planted, planted_by, unplanted, unplanted_by, option}
use yu.Kprobes.Hits.{
  Hit, before, behind, trap, hit, hit_all, life, shown_by, shown, instruction, status, archs, lines,
  expected,
}

-- A run that ends with `v`, shows what is given, and neither holds nor reports a probe.
record Shows {A : Type 0} (r : Run Event A) (v : A) (es : List Event) : Type 0 where
  ended : r.outcome ≡ done v
  shows : shown r.calls ≡ es
  holds : (b : Bool) (fs : List Event) → held b (r.calls ++ fs) ≡ held b fs
  plants : planted r.calls ≡ []
  unplants : unplanted r.calls ≡ []

>>-Shows :
    {A : Type 0} (r : Run Event (Unit {0})) (s : Run Event A) {v : A} {es fs : List Event}
    → Shows r tt es
    → Shows s v fs
    → Shows (r >> s) v (es ++ fs)
>>-Shows r s first rest =
    let xs = r.calls in
    let ys = s.calls in
    rw first.ended (record {
      ended = rest.ended;
      shows = collect-append shown_by xs ys ∙ ap₂ ◌++◌ first.shows rest.shows;
      holds =
          λ b gs. ap (held b) (append_assoc xs ys gs) ∙ first.holds b (ys ++ gs) ∙ rest.holds b gs;
      plants = collect-append planted_by xs ys ∙ ap₂ ◌++◌ first.plants rest.plants;
      unplants = collect-append unplanted_by xs ys ∙ ap₂ ◌++◌ first.unplants rest.unplants;
    })

pure-Shows : {A : Type 0} (v : A) → Shows (pure v) v []
pure-Shows v = record {
  ended = refl;
  shows = refl;
  holds = λ b fs. refl;
  plants = refl;
  unplants = refl;
}

say_pre-Shows :
    (b : Bool) (arch : Arch) (name : List ℕ) (p x y : ℕ)
    → Shows (ifdef b (say_pre arch name p x y)) tt (if b then say_pre arch name p x y ∷ [] else [])
say_pre-Shows true arch name p x y = record {
  ended = refl;
  shows = refl;
  holds = λ b fs. refl;
  plants = refl;
  unplants = refl;
}
say_pre-Shows false arch name p x y = pure-Shows tt

say_post-Shows :
    (b : Bool) (arch : Arch) (name : List ℕ) (p x : ℕ)
    → Shows (ifdef b (say_post arch name p x)) tt (if b then say_post arch name p x ∷ [] else [])
say_post-Shows true arch name p x = record {
  ended = refl;
  shows = refl;
  holds = λ b fs. refl;
  plants = refl;
  unplants = refl;
}
say_post-Shows false arch name p x = pure-Shows tt

dump_stack-Shows : Shows (call dump_stack >> pure (pos 0)) (pos 0) (dump_stack ∷ [])
dump_stack-Shows = record {
  ended = refl;
  shows = refl;
  holds = λ b fs. refl;
  plants = refl;
  unplants = refl;
}

pre-Shows :
    (c : Config) (p : Kprobe) (regs : PtRegs)
    → Shows (handler_pre c p regs) (pos 0) (
        lines c
          (λ arch. say_pre arch p.symbol_name p.addr (instruction arch regs) (status arch regs))
          archs
          (dump_stack ∷ []))
unfolding handler_pre
pre-Shows c p regs =
    let line = λ (arch : Arch).
      say_pre-Shows (option arch c) arch p.symbol_name p.addr (instruction arch regs)
        (status arch regs) in
    >>-Shows _ _ (line x86) (
      >>-Shows _ _ (line ppc) (
        >>-Shows _ _ (line mips)
          (>>-Shows _ _ (line tilegx) (>>-Shows _ _ (line arm64) dump_stack-Shows))))

post-Shows :
    (c : Config) (p : Kprobe) (regs : PtRegs)
    → Shows
        (handler_post c p regs)
        tt
        (lines c (λ arch. say_post arch p.symbol_name p.addr (status arch regs)) archs [])
unfolding handler_post
post-Shows c p regs =
    let line = λ (arch : Arch).
      say_post-Shows (option arch c) arch p.symbol_name p.addr (status arch regs) in
    >>-Shows _ _ (line x86) (
      >>-Shows _ _ (line ppc) (
        >>-Shows _ _ (line mips) (
          >>-Shows _ _ (line tilegx) (
            subst
              (λ es.
                Shows (ifdef c.config_arm64 (say_post arm64 p.symbol_name p.addr regs.pstate)) tt
                  es)
              (sym (append-nil _)) (line arm64)))))

ignored-Shows :
    {A : Type 0} (r : Run Event A) {v : A} {es : List Event}
    → Shows r v es
    → Shows (r >>= λ ret. pure tt) tt es
ignored-Shows r {v} {es} h = rw h.ended (record {
  ended = refl;
  shows = ap shown (append-nil r.calls) ∙ h.shows;
  holds = λ b fs. ap (λ xs. held b (xs ++ fs)) (append-nil r.calls) ∙ h.holds b fs;
  plants = ap planted (append-nil r.calls) ∙ h.plants;
  unplants = ap unplanted (append-nil r.calls) ∙ h.unplants;
})

fault-Shows :
    (p : Kprobe) (number : ℤ)
    → Shows (handler_fault p number) (pos 0) (say_fault p.addr number ∷ [])
unfolding handler_fault
fault-Shows p number = record {
  ended = refl;
  shows = refl;
  holds = λ b fs. refl;
  plants = refl;
  unplants = refl;
}

hit_all-Shows :
    (c : Config) (p : Kprobe) (hs : List Hit)
    → Shows (hit_all c p hs) tt (expected c p.symbol_name p.addr hs)
unfolding hit_all hit
hit_all-Shows c p [] = pure-Shows tt
hit_all-Shows c p (before regs ∷ hs) =
    >>-Shows _ _ (ignored-Shows _ (pre-Shows c p regs)) (hit_all-Shows c p hs)
hit_all-Shows c p (behind regs ∷ hs) = >>-Shows _ _ (post-Shows c p regs) (hit_all-Shows c p hs)
hit_all-Shows c p (trap number ∷ hs) =
    >>-Shows _ _ (ignored-Shows _ (fault-Shows p number)) (hit_all-Shows c p hs)

-- Whatever the core answers, and in whatever order it calls the handlers while the probe is held:
-- kprobe_example.c is loaded, hit and unloaded to its end. If the probe is refused nothing is shown
-- and no address reported. Else the handlers show, in the order of their calls, the lines of the
-- architectures whose options are set, each with the name of the symbol, the address of the probe and
-- the registers of its architecture, and a stack behind the lines in front of the instruction; the
-- address is reported once when the probe is planted, and once when it is given up. No probe is held
-- in the end.
pub life-expected :
    (c : Config) (r : ℤ) (p : ℕ) (kp : Kprobe) (hs : List Hit)
    → let run = life c (record { ret = r; addr = p }) kp hs in
      (run.outcome ≡ done tt)
      × (shown run.calls ≡ (if is_negative r then [] else expected c kp.symbol_name p hs))
      × (planted run.calls ≡ (if is_negative r then [] else p ∷ []))
      × (unplanted run.calls ≡ (if is_negative r then [] else p ∷ []))
      × (held false run.calls ≡ false)
unfolding life
life-expected c (negsuc n) p kp hs = (refl, refl, refl, refl, refl)
life-expected c (pos n) p kp hs =
    let probe : Kprobe = record kp { addr = p; handled = true } in
    let f = hit_all-Shows c probe hs in
    let xs = (hit_all c probe hs).calls in
    let last : List Event = unregister ∷ say_unregistered p ∷ [] in
    rw f.ended (
      refl,
      collect-append shown_by xs last ∙ append-nil (shown xs) ∙ f.shows,
      ap (◌∷◌ p) (collect-append planted_by xs last ∙ append-nil (planted xs) ∙ f.plants),
      collect-append unplanted_by xs last ∙ ap (λ l. l ++ (p ∷ [])) f.unplants,
      f.holds true last,
    )
