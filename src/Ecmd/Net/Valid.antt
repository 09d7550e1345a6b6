-- ===== src/Ecmd/Net/Valid.antt =====
-- The bounds of the buffers in protocols/ecmd/via_tcp/ecmd_net.c.
use mathlib.Core.Option
use ir.Prelude.{
  ℕ, ◌≤◌, ◌≡◌, refl, ◌∙◌, inl, inr, true, false, ◌||◌, Option, none, some, List, ◌==◌,
  if◌then◌else◌, get_or, take, drop, arith, Bool-cases, Option-cases, length-append, length-take,
  length-drop, length-map, length-replicate,
}
use ir.Prelude.Int.{ℤ}
use ir.Ecmd.Result.{ecmd_again, is_ecmd_again}
use ir.Ecmd.Parser.{Reply}
use ir.Ecmd.Net.{
  Connection, Event, Action, newline, memchr, end_line, kill_cr, run_parser, clear_line,
  newdata_reply, newdata_line, newdata_parse, newdata, acked_reply, acked, connected, answer,
  ecmd_net_main, IsParser,
}
use ir.Ecmd.Net.Bounds.{
  IsValid, receive-IsValid, put_newline-IsValid, text_length, length-end_line, connected-IsValid,
  answer-IsSmall, IsShort, IsSmall,
}

module _ {W : Type 0} (parse : List ℕ → List ℕ → ℕ → W → Option (Reply W))
    (p : IsParser parse) where
  -- The step returns a connection within its bounds.
  abbrev Keeps : Option (Connection × W) → Type 0
  Keeps o = (d : Connection) × (w : W) × (o ≡ some (d, w)) × IsValid d

  run_parser-IsValid :
      (c : Connection) (w : W)
      → IsValid c
      → (l : ℤ) × (d : Connection) × (v : W) × (run_parser parse c w ≡ some (l, d, v))
        × IsValid d
        × IsShort l
  unfolding run_parser Option.map
  run_parser-IsValid c w v =
      let skip = if get_or c.inbuf 0 0 == 33 then 1 else 0 in
      let (r, run, cmd_size, out_size, small) =
        p.returns (drop skip c.inbuf) c.outbuf w v.outbuf_size in
      let whole = length-append (take skip c.inbuf) r.cmd in
      let le : skip ≤ 1 = ground arith in
      rw (run, Option.map)
        (
          _,
          _,
          _,
          refl,
          record {
            inbuf_size = omega (
              arith,
              whole,
              cmd_size,
              length-take skip c.inbuf,
              length-drop skip c.inbuf,
              v.inbuf_size,
              le,
            );
            outbuf_size = out_size ∙ v.outbuf_size;
            in_len_le = v.in_len_le;
            out_len_le = v.out_len_le;
          },
          small,
        )

  clear_line-IsValid : (c : Connection) → IsValid c → IsValid (clear_line c)
  unfolding clear_line
  clear_line-IsValid c v = elim (Bool-cases c.parse_again) [
    | inl b ↦ simp b v
    | inr b ↦ simp b (record {
      inbuf_size = length-replicate {A = ℕ} 50 0;
      outbuf_size = v.outbuf_size;
      in_len_le = omega arith;
      out_len_le = v.out_len_le;
    })
  ]

  newdata_line-IsValid :
      (lf : Option ℕ) (c : Connection) (w : W) → IsValid c → Keeps (newdata_line parse lf c w)
  unfolding newdata_line newdata_reply Option.map Option.bind kill_cr
  newdata_line-IsValid lf c w v =
      let (l, d, u, run, valid, small) =
        run_parser-IsValid (record c { inbuf = kill_cr (end_line lf c.inbuf) }) w
          (record {
            inbuf_size =
                length-map (end_line lf c.inbuf) _ ∙ length-end_line lf c.inbuf ∙ v.inbuf_size;
            outbuf_size = v.outbuf_size;
            in_len_le = v.in_len_le;
            out_len_le = v.out_len_le;
          }) in
      let (e, put, good) =
        put_newline-IsValid (if is_ecmd_again l then ecmd_again l else l)
          (record d { parse_again = d.parse_again || is_ecmd_again l })
          (record {
            inbuf_size = valid.inbuf_size;
            outbuf_size = valid.outbuf_size;
            in_len_le = valid.in_len_le;
            out_len_le = valid.out_len_le;
          })
          (text_length l small) in
      rw (run, Option.bind) (rw (put, Option.map) (_, _, refl, clear_line-IsValid e good))

  newdata_parse-IsValid :
      (appdata : List ℕ) (c : Connection) (w : W)
      → IsValid c
      → Keeps (newdata_parse parse appdata c w)
  unfolding newdata_parse
  newdata_parse-IsValid appdata c w v =
      elim (Option-cases (memchr newline (take c.in_len c.inbuf))) [
        | inr (lf, e) ↦ rw (e, newdata_parse) (newdata_line-IsValid (some lf) c w v)
        | inl e ↦ elim (Option-cases (memchr newline appdata)) [
          | inr (i, f) ↦
              rw (e, newdata_parse) (rw (f, newdata_parse) (newdata_line-IsValid none c w v))
          | inl f ↦ rw (e, newdata_parse) (rw (f, newdata_parse) (c, w, refl, v))
        ]
      ]

  newdata-IsValid :
      (appdata : List ℕ) (c : Connection) (w : W) → IsValid c → Keeps (newdata parse appdata c w)
  unfolding newdata Option.bind
  newdata-IsValid appdata c w v =
      let (d, got, valid) = receive-IsValid appdata c v in
      rw (got, Option.bind) (newdata_parse-IsValid appdata d w valid)

  acked_again :
      (c : Connection) (w : W)
      → c.parse_again ≡ true
      → acked parse c w
        ≡ Option.bind (run_parser parse (record c { out_len = 0 }) w) (acked_reply parse)
  unfolding acked
  acked_again c w b = simp b

  acked_idle :
      (c : Connection) (w : W)
      → c.parse_again ≡ false
      → acked parse c w ≡ some (record c { out_len = 0 }, w)
  unfolding acked
  acked_idle c w b =
      elim c.parse_again
          as (λ x.
            x ≡ false
            → (if x
                then Option.bind (run_parser parse (record c { out_len = 0 }) w) (acked_reply parse)
                else some (record c { out_len = 0 }, w))
              ≡ some (record c { out_len = 0 }, w)) [
                | true ↦ λ f. absurd (ground arith)
                | false ↦ λ f. refl
              ]
        b

  acked-IsValid : (c : Connection) (w : W) → IsValid c → Keeps (acked parse c w)
  unfolding acked acked_reply Option.map Option.bind
  acked-IsValid c w v =
      let sent = record c { out_len = 0 } in
      let v0 : IsValid sent = record {
        inbuf_size = v.inbuf_size;
        outbuf_size = v.outbuf_size;
        in_len_le = v.in_len_le;
        out_len_le = omega arith;
      } in
      elim (Bool-cases c.parse_again) [
        | inr b ↦ (sent, w, acked_idle c w b, v0)
        | inl b ↦
            let (l, d, u, run, valid, small) = run_parser-IsValid sent w v0 in
            let (e, put, good) =
              put_newline-IsValid (if is_ecmd_again l then ecmd_again l else l)
                (record d {
                  parse_again = is_ecmd_again l;
                  in_len = if is_ecmd_again l then d.in_len else 0;
                })
                (record {
                  inbuf_size = valid.inbuf_size;
                  outbuf_size = valid.outbuf_size;
                  in_len_le = ground (arith, valid.in_len_le);
                  out_len_le = valid.out_len_le;
                })
                (text_length l small) in
            rw (acked_again c w b) (rw (run, Option.bind) (rw (put, Option.map) (_, _, refl, good)))
      ]

  -- With a parser that returns, keeps the lengths of the buffers and makes texts of at most the
  -- length it is given: from a connection whose buffers have 50 bytes and whose lengths are at most
  -- 50, `ecmd_net_main` returns for every event, no access to a buffer is out of its bounds, the
  -- connection is again such a one, and a text that is sent has one to 50 bytes.
  pub ecmd_net_main-IsValid :
      (e : Event) (c : Connection) (w : W)
      → IsValid c
      → (a : Action) × (d : Connection) × (v : W) × (ecmd_net_main parse e c w ≡ some (a, d, v))
        × IsValid d
        × IsSmall a
  unfolding ecmd_net_main Option.bind Option.map
  ecmd_net_main-IsValid e c w v =
      let c0 = if e.connected then connected c else c in
      let v0 = elim e.connected as (λ b. IsValid (if b then connected c else c)) [
        | true ↦ connected-IsValid c v
        | false ↦ v
      ] in
      let (c1, w1, sent, v1) =
        elim e.acked as (λ b. Keeps (if b then acked parse c0 w else some (c0, w))) [
          | true ↦ acked-IsValid c0 w v0
          | false ↦ (c0, w, refl, v0)
        ] in
      let (c2, w2, got, v2) =
        elim e.newdata
          as (λ b. Keeps (if b then newdata parse e.appdata c1 w1 else some (c1, w1))) [
            | true ↦ newdata-IsValid e.appdata c1 w1 v1
            | false ↦ (c1, w1, refl, v1)
          ] in
      rw (sent, Option.bind)
        (rw (got, Option.map) (answer e c2, c2, w2, refl, v2, answer-IsSmall e c2 v2))
