-- ===== src/Server/Host/Lines.antt =====
-- The lines of a request head, src/chute/server.py `_parse_request_head`: what a head is that passes
-- the test for a bare CR or LF.
use chute.Prelude.{
  true, false, [], ◌∷◌, ◌++◌, ◌≡◌, inl, inr, ◌==◌, arith, Bool, ◌||◌, ◌&&◌, List, refl, Bool-cases,
  ap, ℕ, if◌then◌else◌, subst,
}
use chute.Prelude.Text.{Bytes}
use chute.Server.Head.{has_bare}

-- A line without a CR and without an LF.
unfoldable pub is_clean : Bytes → Bool
is_clean [] = true
is_clean (b ∷ bs) = if (b == 13) || (b == 10) then false else is_clean bs

unfoldable pub are_clean : List Bytes → Bool
are_clean [] = true
are_clean (line ∷ lines) = is_clean line && are_clean lines

-- The lines, each behind a CRLF.
unfoldable pub joined : List Bytes → Bytes
joined [] = []
joined (line ∷ lines) = 13 ∷ 10 ∷ (line ++ joined lines)

-- The bytes are clean lines with a CRLF between one and the next.
abbrev pub HasCleanLines : Bytes → Type 0
HasCleanLines head =
    (line : Bytes) × (lines : List Bytes) × (is_clean line ≡ true)
    × (are_clean lines ≡ true)
    × (head ≡ line ++ joined lines)

next_line : (bs : Bytes) → HasCleanLines bs → HasCleanLines (13 ∷ 10 ∷ bs)
unfolding is_clean are_clean joined
next_line bs (line, lines, l, ls, e) =
    ([], line ∷ lines, refl, ground (arith, l, ls), ap (λ x. 13 ∷ 10 ∷ x) e)

same_line :
    (b : ℕ) (bs : Bytes)
    → ((b == 13) || (b == 10)) ≡ false
    → HasCleanLines bs
    → HasCleanLines (b ∷ bs)
unfolding is_clean
same_line b bs n (line, lines, l, ls, e) =
    (b ∷ line, lines, ground (arith, n, l), ls, ap (λ x. b ∷ x) e)

pub has_bare-clean : (head : Bytes) → has_bare head ≡ false → HasCleanLines head
unfolding has_bare is_clean are_clean joined
has_bare-clean [] h = ([], [], refl, refl, refl)
has_bare-clean (b ∷ []) h = (b ∷ [], [], ground (arith, h), refl, refl)
has_bare-clean (b ∷ c ∷ bs) h = elim (Bool-cases ((b == 13) && (c == 10))) [
  | inl e ↦
      let after : has_bare bs ≡ false = ground (arith, h, e) in
      let same : 13 ∷ 10 ∷ bs ≡ b ∷ c ∷ bs = ground (arith, e) in
      subst HasCleanLines same (next_line bs (has_bare-clean bs after))
  | inr e ↦
      let next : has_bare (c ∷ bs) ≡ false = ground (arith, h, e) in
      same_line b (c ∷ bs) (ground (arith, h, e)) (has_bare-clean (c ∷ bs) next)
]
