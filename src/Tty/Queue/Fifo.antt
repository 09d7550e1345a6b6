-- ===== src/Tty/Queue/Fifo.antt =====
-- The input queue against a bounded queue of characters.
use ir.Prelude.{
  ℕ, zero, suc, ◌+◌, ◌<◌, ◌≡◌, ◌≢◌, refl, true, false, List, [], ◌∷◌, ◌++◌, arith, ltb, ◌==◌,
  ==_iff, if◌then◌else◌, length, set, ap, ap₂, ◌∙◌, Bool-cases, inl, inr, length-set,
}
use native.Mathlib.Decide.{ℕ_discrete}
use ir.Prelude.Strings.{strlen}
use ir.Tty.Queue.{queue_size, shift, getch, getch_queue}

-- The array holds the characters `q`, with a zero behind them.
abbrev pub Holds : List ℕ → List ℕ → Type 0
Holds q [] = ⊥
Holds [] (c ∷ cs) = c ≡ 0
Holds (x ∷ q) (c ∷ cs) = (c ≡ x) × (x ≢ 0) × Holds q cs

-- The empty queue stands for a queue that the zero ends.
abbrev pub front : List ℕ → ℕ
front [] = 0
front (x ∷ q) = x

abbrev pub behind : List ℕ → List ℕ
behind [] = []
behind (x ∷ q) = q

abbrev pub push : ℕ → List ℕ → List ℕ
push ch q = if ch == 0 then q else q ++ (ch ∷ [])

pub data InputCall : Type 0 where
  take_char : InputCall
  put_char : ℕ → InputCall

-- What the calls return, on the array and on a queue of at most seven characters.
abbrev pub run_array : List InputCall → List ℕ → List ℕ
run_array [] queue = []
run_array (take_char ∷ calls) queue = let r = getch queue in r.0 ∷ run_array calls r.1
run_array (put_char ch ∷ calls) queue = let r = getch_queue ch queue in r.0 ∷ run_array calls r.1

abbrev pub run_queue : List InputCall → List ℕ → List ℕ
run_queue [] q = []
run_queue (take_char ∷ calls) q = front q ∷ run_queue calls (behind q)
run_queue (put_char ch ∷ calls) q = elim (ltb (length q) 7) [
  | true ↦ 0 ∷ run_queue calls (push ch q)
  | false ↦ 1 ∷ run_queue calls q
]

strlen-Holds : (q arr : List ℕ) → Holds q arr → strlen arr ≡ length q
unfolding strlen
strlen-Holds q [] h = elim h [ ]
strlen-Holds [] (c ∷ cs) h = ground arith
strlen-Holds (x ∷ q) (c ∷ cs) (e, ne, h) = ground (arith, strlen-Holds q cs h)

length-shift : (n : ℕ) (cs : List ℕ) → length (shift n cs) ≡ length cs
unfolding shift
length-shift zero cs = refl
length-shift (suc n) [] = refl
length-shift (suc n) (c ∷ []) = refl
length-shift (suc n) (c ∷ d ∷ cs) = ap suc (length-shift n (d ∷ cs))

shift-Holds : (x : ℕ) (q arr : List ℕ) → Holds (x ∷ q) arr → Holds q (shift (suc (length q)) arr)
unfolding shift
shift-Holds x q [] h = elim h [ ]
shift-Holds x q (c ∷ []) h = absurd (h.2)
shift-Holds x [] (c ∷ d ∷ cs) (e, ne, h) = h
shift-Holds x (y ∷ q) (c ∷ d ∷ cs) (e, ne, h) = (h.0, h.1, shift-Holds y q (d ∷ cs) h)

set-Holds :
    (ch : ℕ) (q arr : List ℕ)
    → Holds q arr
    → length q + 1 < length arr
    → Holds (push ch q) (set (set arr (length q) ch) (suc (length q)) 0)
set-Holds ch q [] h b = elim h [ ]
set-Holds ch [] (c ∷ []) h b = absurd (omega arith)
set-Holds ch [] (c ∷ d ∷ cs) h b = elim (ℕ_discrete ch 0) [
  | yes z ↦ rw ((==_iff ch 0).1 z) z
  | no n ↦ ground arith
]
set-Holds ch (x ∷ q) (c ∷ cs) (e, ne, h) b = elim (Bool-cases (ch == 0)) [
  | inl z ↦ let rest = rw z at (set-Holds ch q cs h (omega arith)) in rw z (e, ne, rest)
  | inr n ↦ let rest = rw n at (set-Holds ch q cs h (omega arith)) in rw n (e, ne, rest)
]

getch-front :
    (q arr : List ℕ)
    → Holds q arr
    → ((getch arr).0 ≡ front q)
      × Holds (behind q) (getch arr).1
      × (length (getch arr).1 ≡ length arr)
unfolding getch
getch-front q [] h = elim h [ ]
getch-front [] (c ∷ cs) h = rw ((==_iff c 0).1 h) (h, h, refl)
getch-front (x ∷ q) (c ∷ cs) h =
    let full : (c == 0) ≡ false = ground (arith, h) in
    let size = strlen-Holds (x ∷ q) (c ∷ cs) h in
    rw full (rw size (h.0, shift-Holds x q (c ∷ cs) h, length-shift (suc (length q)) (c ∷ cs)))

-- The input queue is a queue of at most seven characters: over any sequence of calls, `getch`
-- returns and removes the character put first, or 0 if there is none, and `_getch_queue` puts a
-- character at the end and returns 0, or changes nothing and returns 1 if seven are waiting. A
-- character 0 is not put.
pub run_array-run_queue :
    (calls : List InputCall) (q arr : List ℕ)
    → Holds q arr
    → length arr ≡ queue_size
    → run_array calls arr ≡ run_queue calls q
unfolding getch_queue
run_array-run_queue [] q arr h size = refl
run_array-run_queue (take_char ∷ calls) q arr h size =
    let (e, next, same) = getch-front q arr h in
    ap₂ (λ x xs. x ∷ xs) e (run_array-run_queue calls (behind q) (getch arr).1 next (same ∙ size))
run_array-run_queue (put_char ch ∷ calls) q arr h size = elim (Bool-cases (ltb (length q) 7)) [
  | inl room ↦
      let short : ltb (length q + 1) queue_size ≡ true = ground arith in
      let two : length q + 1 ≡ suc (length q) = omega arith in
      rw (strlen-Holds q arr h) (
        rw (room, run_queue)
          (rw short (
            rw two (
              ap (λ xs. 0 ∷ xs)
                (run_array-run_queue calls (push ch q)
                  (set (set arr (length q) ch) (suc (length q)) 0)
                  (set-Holds ch q arr h (ground arith))
                  (length-set (set arr (length q) ch) (suc (length q)) 0
                    ∙ length-set arr (length q) ch
                    ∙ size))))))
  | inr full ↦
      let long : ltb (length q + 1) queue_size ≡ false = ground arith in
      rw (strlen-Holds q arr h) (
        rw (full, run_queue) (rw long (ap (λ xs. 1 ∷ xs) (run_array-run_queue calls q arr h size))))
]
