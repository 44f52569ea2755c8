-- ===== src/PathHelpers/Text.antt =====
-- src/path-helpers.c: the text of a path, part by part, and how far one turn of the loops goes in it.
use efivar.Common.{
  ℕ, zero, suc, ◌+◌, ◌-◌, ◌^◌, ◌≤◌, ◌<◌, ◌≡◌, refl, sym, ap, ◌∙◌, subst, false, List, [], ◌∷◌, ◌++◌,
  drop, length, All, arith, replicate, length-append, length-drop, drop-drop, drop-length_append,
}
use efivar.Common.Words.{u32}
use efivar.PathHelpers.{cinpat, strxcspn, strcspn, slash, next_pos}

-- A name, and how many slashes are behind it.
pub record Part : Type 0 where
  pub name : List ℕ
  pub slashes : ℕ

unfoldable pub text : List Part → List ℕ
text [] = []
text (p ∷ ps) = p.name ++ (replicate p.slashes slash ++ text ps)

-- A character of a name is no slash, and not NUL.
abbrev pub IsPlain : ℕ → Type 0
IsPlain c = cinpat c (slash ∷ []) ≡ false

-- Every name has characters, and all but the last have slashes behind them.
abbrev pub IsParts : List Part → Type 0
IsParts [] = Unit {0}
IsParts (p ∷ ps) =
    (0 < length p.name) × All IsPlain p.name × (0 < length ps → 0 < p.slashes) × IsParts ps

strcspn-append :
    (name rest : List ℕ)
    → All IsPlain name
    → strcspn rest (slash ∷ []) ≡ 0
    → strcspn (name ++ rest) (slash ∷ []) ≡ length name
unfolding strcspn
strcspn-append [] rest h e = e
strcspn-append (c ∷ name) rest (k, h) e = ground (arith, k, strcspn-append name rest h e)

strxcspn-append :
    (n : ℕ) (rest : List ℕ)
    → strxcspn rest (slash ∷ []) ≡ 0
    → strxcspn (replicate n slash ++ rest) (slash ∷ []) ≡ n
unfolding strxcspn cinpat
strxcspn-append zero rest e = e
strxcspn-append (suc n) rest e = ground (arith, strxcspn-append n rest e)

strxcspn-name :
    (name rest : List ℕ)
    → 0 < length name
    → All IsPlain name
    → strxcspn (name ++ rest) (slash ∷ []) ≡ 0
unfolding strxcspn
strxcspn-name [] rest pos h = absurd (omega arith)
strxcspn-name (c ∷ name) rest pos (k, h) = ground (arith, k)

pub strxcspn-text : (ps : List Part) → IsParts ps → strxcspn (text ps) (slash ∷ []) ≡ 0
unfolding strxcspn text
strxcspn-text [] h = refl
strxcspn-text (p ∷ ps) (pos, plain, _, _) =
    strxcspn-name p.name (replicate p.slashes slash ++ text ps) pos plain

pub strcspn-behind :
    (n : ℕ) (ps : List Part)
    → (0 < length ps → 0 < n)
    → strcspn (replicate n slash ++ text ps) (slash ∷ []) ≡ 0
unfolding strcspn text cinpat
strcspn-behind zero [] h = refl
strcspn-behind zero (p ∷ ps) h = absurd (omega (arith, h))
strcspn-behind (suc n) ps h = ground arith

length-replicate : (n c : ℕ) → length (replicate n c) ≡ n
length-replicate zero c = refl
length-replicate (suc n) c = ap suc (length-replicate n c)

-- A turn at a name, which may be empty, with slashes behind it.
pub record Turn (str : List ℕ) (pos : ℕ) (name : List ℕ) (n : ℕ) (rest : List ℕ) : Type 0 where
  pub spans : strcspn (drop pos str) (slash ∷ []) ≡ length name
  pub next : next_pos str (slash ∷ []) pos ≡ pos + length name + n
  pub rests : drop (pos + length name + n) str ≡ rest
  pub inside : pos + length name + n ≤ length str

pub turn :
    (str : List ℕ) (pos : ℕ) (name : List ℕ) (n : ℕ) (rest : List ℕ)
    → length str < 2 ^ 32
    → pos ≤ length str
    → drop pos str ≡ name ++ (replicate n slash ++ rest)
    → All IsPlain name
    → strcspn (replicate n slash ++ rest) (slash ∷ []) ≡ 0
    → strxcspn rest (slash ∷ []) ≡ 0
    → Turn str pos name n rest
unfolding next_pos
turn str pos name n rest small le here plain slashes other =
    let size : length str - pos ≡ length name + (n + length rest) = omega (
      arith,
      length-drop pos str,
      ap length here,
      length-append name (replicate n slash ++ rest),
      length-append (replicate n slash) rest,
      length-replicate n slash,
    ) in
    let spans : strcspn (drop pos str) (slash ∷ []) ≡ length name =
      ap (λ (s : List ℕ). strcspn s (slash ∷ [])) here
      ∙ strcspn-append name (replicate n slash ++ rest) plain slashes in
    let after : drop (pos + length name) str ≡ replicate n slash ++ rest =
      sym (drop-drop (length name) pos str)
      ∙ ap (drop (length name)) here
      ∙ drop-length_append name (replicate n slash ++ rest) in
    let behind : drop (pos + length name + n) str ≡ rest =
      sym (drop-drop n (pos + length name) str)
      ∙ ap (drop n) after
      ∙ subst (λ m. drop m (replicate n slash ++ rest) ≡ rest) (length-replicate n slash)
          (drop-length_append (replicate n slash) rest) in
    let middle : u32 (pos + length name) ≡ pos + length name = omega (arith, size) in
    let end : u32 (pos + length name + n) ≡ pos + length name + n = omega (arith, size) in
    record {
      spans = spans;
      next = rw spans (rw middle (rw after (rw (strxcspn-append n rest other) end)));
      rests = behind;
      inside = omega (arith, size);
    }
