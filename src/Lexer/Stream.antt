-- ===== src/Lexer/Stream.antt =====
-- The calls of `next` in bootstrap/quarantine/c/frontend.c that its parser makes, in a row.
use nexoragenesis_toolchain.Base.{
  ℕ, zero, suc, ◌-◌, ◌≤◌, ◌<◌, ◌≡◌, ◌≢◌, ◌⊎◌, inl, inr, Bool, true, false, ◌||◌, List, [], ◌∷◌,
  ◌==◌, refl, subst, sym, if◌then◌else◌, arith,
}
use nexoragenesis_toolchain.Lexer.Tokens.{Input, Parser, Token, place, next, tk_eof}
use nexoragenesis_toolchain.Lexer.Places.{IsPlace}
use nexoragenesis_toolchain.Lexer.Progress.{IsToken, IsNext, next-IsNext}

-- Whether the parser has no further token: a failure, or the end of the source.
abbrev pub is_ended : Parser → Bool
is_ended l = l.failed || l.token.kind == tk_eof

-- At most as many calls as the first argument says, to the first that ends it: the tokens, and the
-- parser after them.
unfoldable pub lex_all : ℕ → Input → Parser → List Token × Parser
lex_all zero x l = ([], l)
lex_all (suc left) x l =
    let l' = next x l in
    let (ts, last) = lex_all left x l' in if is_ended l' then ([], l') else (l'.token ∷ ts, last)

-- Tokens that stand one behind another between two offsets, none of them empty.
pub data Chain : ℕ → List Token → ℕ → Type 0 where
  no_token : {from to : ℕ} → from ≤ to → Chain from [] to
  token :
      {from to : ℕ} {t : Token} {ts : List Token}
      → from ≤ t.span.start
      → t.span.start < t.span.end
      → t.kind ≢ tk_eof
      → Chain t.span.end ts to
      → Chain from (t ∷ ts) to

-- A source that is at its end, or has failed, after tokens from an offset on.
pub record IsLexed (x : Input) (from : ℕ) (r : List Token × Parser) : Type 0 where
  pub ended :
      (r.1.failed ≡ true)
      ⊎ ((r.1.failed ≡ false) × (r.1.token.kind ≡ tk_eof) × (r.1.cursor ≡ x.length_))
  pub chain : Chain from r.0 r.1.cursor

if-IsLexed :
    (x : Input) (from : ℕ) (b : Bool) (r1 r2 : List Token × Parser)
    → (b ≡ true → IsLexed x from r1)
    → (b ≡ false → IsLexed x from r2)
    → IsLexed x from (if b then r1 else r2)
if-IsLexed x from true r1 r2 h k = h refl
if-IsLexed x from false r1 r2 h k = k refl

ended-IsLexed :
    (x : Input) (l l' : Parser) → IsNext x l l' → is_ended l' ≡ true → IsLexed x l.cursor ([], l')
ended-IsLexed x l l' h e = record {
  ended = elim h.outcome [
    | inl f ↦ inl f
    | inr (inl at_end) ↦ inr at_end
    | inr (inr (ok, t)) ↦ absurd (let ne = t.kind_ne in ground arith)
  ];
  chain = no_token h.forward;
}

more-IsToken :
    (x : Input) (l l' : Parser)
    → IsNext x l l'
    → is_ended l' ≡ false
    → (l'.failed ≡ false) × IsToken x l l'
more-IsToken x l l' h e = elim h.outcome [
  | inl f ↦ absurd (ground arith)
  | inr (inl (ok, eof, at_end)) ↦ absurd (ground arith)
  | inr (inr t) ↦ t
]

-- Calls of `next` in a row, from a parser that has not failed and whose cursor lies in the source at the
-- line and column it says, come to an end: in more calls than there are bytes left, one fails or the
-- end of the source is reached. The tokens before that stand one behind another in the source.
pub lex_all-IsLexed :
    (left : ℕ) (x : Input) (l : Parser)
    → l.cursor ≤ x.length_
    → IsPlace x.text (place l)
    → l.failed ≡ false
    → x.length_ - l.cursor < left
    → IsLexed x l.cursor (lex_all left x l)
unfolding lex_all
lex_all-IsLexed zero x l inside at ok lt = absurd (omega arith)
lex_all-IsLexed (suc left) x l inside at ok lt =
    let h = next-IsNext x l inside at ok in
    let l' = next x l in
    if-IsLexed x l.cursor (is_ended l') _ _ (λ e. ended-IsLexed x l l' h e)
      (λ e.
        let (ok', t) = more-IsToken x l l' h e in
        let before = t.from_cursor in
        let some_byte = t.nonempty in
        let to = t.to_cursor in
        let in_source = h.in_source in
        let rest = lex_all-IsLexed left x l' in_source h.placed ok' (omega arith) in
        record {
          ended = rest.ended;
          chain = token before some_byte t.kind_ne (
              subst (λ c. Chain c (lex_all left x l').0 (lex_all left x l').1.cursor) (sym to)
                rest.chain);
        })
