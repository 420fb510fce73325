-- ===== src/Netlink/Memory.antt =====
-- The string and memory functions of nl.c, on lists of bytes.
use yu.Prelude.{
  ℕ, zero, suc, ◌+◌, ◌≤◌, ◌<◌, ◌≡◌, refl, ap, ◌∙◌, some, List, [], ◌∷◌, ◌++◌, length, get_elem?,
  take, drop, arith,
}
use yu.Prelude.CString.{NoNull}
use yu.Prelude.Trace.{run, done, fault}
use yu.Netlink.{string_loop, stringlength, memcpy, store}

pub string_loop-length :
    (slen : ℕ) (m rest : List ℕ)
    → NoNull m
    → string_loop slen (m ++ (0 ∷ rest)) ≡ run [] (done (slen + length m))
unfolding string_loop
string_loop-length slen [] rest h = ground arith
string_loop-length slen (c ∷ m) rest h = ground (arith, string_loop-length (slen + 1) m rest h.1)

-- `stringlength` counts the bytes in front of the null byte.
pub stringlength-length :
    (m rest : List ℕ) → NoNull m → stringlength (m ++ (0 ∷ rest)) ≡ run [] (done (length m))
unfolding stringlength
stringlength-length m rest h =
    string_loop-length 0 m rest h ∙ ap (λ n. run [] (done n)) (omega arith)

-- Within the payload `memcpy` overwrites its first bytes.
pub memcpy-drop :
    (payload m : List ℕ)
    → length m ≤ length payload
    → memcpy payload m ≡ run [] (done (m ++ drop (length m) payload))
unfolding memcpy
memcpy-drop payload [] h = refl
memcpy-drop [] (b ∷ m) h = absurd (omega arith)
memcpy-drop (x ∷ payload) (b ∷ m) h = rw (memcpy-drop payload m (omega arith))

-- A longer string runs over the end of the payload.
pub memcpy-fault :
    (payload m : List ℕ) → length payload < length m → memcpy payload m ≡ run [] fault
unfolding memcpy
memcpy-fault payload [] h = absurd (omega arith)
memcpy-fault [] (b ∷ m) h = refl
memcpy-fault (x ∷ payload) (b ∷ m) h = rw (memcpy-fault payload m (omega arith))

-- The write of a byte behind a front of the payload.
pub store-append :
    (front : List ℕ) (x v : ℕ) (back : List ℕ)
    → store (front ++ (x ∷ back)) (length front) v ≡ run [] (done (front ++ (v ∷ back)))
unfolding store
store-append [] x v back = refl
store-append (y ∷ front) x v back = rw (store-append front x v back)

pub store-fault :
    (payload : List ℕ) (i v : ℕ) → length payload ≤ i → store payload i v ≡ run [] fault
unfolding store
store-fault [] i v h = refl
store-fault (x ∷ payload) zero v h = absurd (omega arith)
store-fault (x ∷ payload) (suc i) v h = rw (store-fault payload i v (omega arith))

pub take_front : (m rest : List ℕ) → take (length m) (m ++ rest) ≡ m
take_front [] rest = refl
take_front (c ∷ m) rest = ap (◌∷◌ c) (take_front m rest)

-- The payload behind the string: the byte that keeps its old value, and the rest.
pub drop_two :
    (n : ℕ) (xs : List ℕ)
    → n + 2 ≤ length xs
    → (x : ℕ) × (y : ℕ) × (ys : List ℕ) × (drop n xs ≡ x ∷ y ∷ ys)
drop_two zero [] h = absurd (omega arith)
drop_two zero (x ∷ []) h = absurd (omega arith)
drop_two zero (x ∷ y ∷ ys) h = (x, y, ys, refl)
drop_two (suc n) [] h = absurd (omega arith)
drop_two (suc n) (x ∷ xs) h = drop_two n xs (omega arith)

pub store-behind :
    (m : List ℕ) (x y : ℕ) (ys : List ℕ)
    → store (m ++ (x ∷ y ∷ ys)) (1 + length m) 0 ≡ run [] (done (m ++ (x ∷ 0 ∷ ys)))
unfolding store
store-behind [] x y ys = refl
store-behind (c ∷ m) x y ys =
    let next : 1 + suc (length m) ≡ suc (1 + length m) = omega arith in
    rw (next, store-behind m x y ys)

pub get-drop :
    (n : ℕ) (xs : List ℕ) {x y : ℕ} {ys : List ℕ}
    → drop n xs ≡ x ∷ y ∷ ys
    → (get_elem? xs n ≡ some x) × (drop (n + 2) xs ≡ ys)
get-drop zero [] e = absurd (cc)
get-drop zero (x ∷ []) e = absurd (cc)
get-drop zero (x ∷ y ∷ ys) e = (cc, cc)
get-drop (suc n) [] e = absurd (cc)
get-drop (suc n) (x ∷ xs) e =
    let next : suc n + 2 ≡ suc (n + 2) = omega arith in rw next (get-drop n xs e)
