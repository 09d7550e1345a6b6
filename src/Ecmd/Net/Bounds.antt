-- ===== src/Ecmd/Net/Bounds.antt =====
-- The bounds of the buffers, one step after the other, in protocols/ecmd/via_tcp/ecmd_net.c.
use mathlib.Core.Option
use ir.Prelude.{
  ℕ, zero, suc, ◌+◌, ◌-◌, ◌%◌, ◌<◌, ◌≤◌, ◌≡◌, refl, sym, ap, ◌∙◌, ◌⊎◌, inl, inr, ◌||◌, Option, none,
  some, List, [], ◌∷◌, ltb, leb, if◌then◌else◌, length, take, arith, Bool-cases, length-take,
  length-set, length-replicate,
}
use ir.Prelude.Int.{ℤ, pos, negsuc}
use ir.Prelude.Strings.{store_inside, length-store}
use ir.Ecmd.Result.{ecmd_again, is_ecmd_again, ecmd_again_cases}
use ir.Ecmd.Net.{
  Connection, Event, Action, nothing, send, close, newline, receive, end_line, put_newline,
  connected, answer,
}

pub record IsValid (c : Connection) : Type 0 where
  pub inbuf_size : length c.inbuf ≡ 50
  pub outbuf_size : length c.outbuf ≡ 50
  pub in_len_le : c.in_len ≤ 50
  pub out_len_le : c.out_len ≤ 50

-- The length of a text, or of one with more to come.
abbrev pub IsShort : ℤ → Type 0
IsShort l = (n : ℕ) → (l ≡ pos n) ⊎ (l ≡ ecmd_again (pos n)) → n ≤ 49

pub receive-IsValid :
    (appdata : List ℕ) (c : Connection)
    → IsValid c
    → (d : Connection) × (receive appdata c ≡ some d) × IsValid d
unfolding receive Option.map
receive-IsValid appdata c v = elim (Bool-cases (ltb 0 ((50 + 65536 - c.in_len) % 65536))) [
  | inr b ↦ rw b (c, refl, v)
  | inl b ↦
      let diff = (50 + 65536 - c.in_len) % 65536 in
      let cplen = if leb (length appdata) diff then length appdata else diff in
      let room : c.in_len + cplen ≤ 50 = ground (arith, v.in_len_le) in
      let taken = length-take cplen appdata in
      let stored =
        store_inside c.in_len (take cplen appdata) c.inbuf
          (omega (arith, taken, room, v.inbuf_size)) in
      rw b (
        rw (stored, Option.map)
          (
            _,
            refl,
            record {
              inbuf_size =
                  length-store c.in_len (take cplen appdata) c.inbuf _ stored ∙ v.inbuf_size;
              outbuf_size = v.outbuf_size;
              in_len_le = omega (arith, room);
              out_len_le = v.out_len_le;
            },
          ))
]

pub put_newline-IsValid :
    (l : ℤ) (c : Connection)
    → IsValid c
    → ((n : ℕ) → l ≡ pos n → n ≤ 49)
    → (d : Connection) × (put_newline l c ≡ some d) × IsValid d
unfolding put_newline Option.map
put_newline-IsValid (pos (suc n)) c v small =
    let le = small (suc n) refl in
    let stored = store_inside (suc n) (newline ∷ []) c.outbuf (omega (arith, le, v.outbuf_size)) in
    rw (stored, Option.map)
      (
        _,
        refl,
        record {
          inbuf_size = v.inbuf_size;
          outbuf_size = length-store (suc n) (newline ∷ []) c.outbuf _ stored ∙ v.outbuf_size;
          in_len_le = v.in_len_le;
          out_len_le = omega (arith, le);
        },
      )
put_newline-IsValid (pos zero) c v small = (c, refl, v)
put_newline-IsValid (negsuc n) c v small = (c, refl, v)

pub text_length :
    (l : ℤ) → IsShort l → (n : ℕ) → (if is_ecmd_again l then ecmd_again l else l) ≡ pos n → n ≤ 49
text_length l small n = elim (Bool-cases (is_ecmd_again l)) [
  | inl b ↦ rw b (λ e. small n (inr (sym (ecmd_again_cases l).0 ∙ ap ecmd_again e)))
  | inr b ↦ rw b (λ e. small n (inl e))
]

pub length-end_line : (lf : Option ℕ) (buf : List ℕ) → length (end_line lf buf) ≡ length buf
unfolding end_line
length-end_line (some lf) buf = length-set buf lf 0
length-end_line none buf = length-set buf 49 0

pub connected-IsValid : (c : Connection) → IsValid c → IsValid (connected c)
unfolding connected
connected-IsValid c v = record {
  inbuf_size = length-replicate {A = ℕ} 50 0;
  outbuf_size = v.outbuf_size;
  in_len_le = omega arith;
  out_len_le = omega arith;
}

-- What is sent fits the output buffer.
abbrev pub IsSmall : Action → Type 0
IsSmall nothing = Unit
IsSmall (send text) = (0 < length text) × (length text ≤ 50)
IsSmall close = Unit

pub answer-IsSmall : (e : Event) (c : Connection) → IsValid c → IsSmall (answer e c)
unfolding answer
answer-IsSmall e c v =
    elim (Bool-cases (e.rexmit || e.newdata || e.acked || e.connected || e.poll)) [
      | inr b ↦ rw b tt
      | inl b ↦ elim (Bool-cases (ltb 0 c.out_len)) [
        | inl some_text ↦
            let taken = length-take c.out_len c.outbuf in
            rw b (rw some_text (ground (arith, taken, v), omega (arith, taken, v.out_len_le)))
        | inr no_text ↦
            rw b (
              rw no_text
                (elim (Bool-cases c.close_requested) [ inl f ↦ rw f tt | inr f ↦ rw f tt ]))
      ]
    ]
