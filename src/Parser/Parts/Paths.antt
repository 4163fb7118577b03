-- ===== src/Parser/Parts/Paths.antt =====
-- How the paths of crates/chatgpt-archive/src/synthetic_parser/parts.rs are read back.
use Prim.Native.Char.{code}
use Prim.Native.String
use Prim.Native.String.append
use ratatoskr_chatgpt.Prelude.{
  ℕ, ◌≡◌, refl, inl, inr, String, Bool, true, false, Option, none, some, List, [], ◌∷◌, ◌++◌,
  if◌then◌else◌, ◌==◌, arith, Bool-cases,
}
use ratatoskr_chatgpt.Parser.Parts.{replace, escape, child_path}

abbrev pub codes : String → List ℕ
codes String.[] = []
codes (String.◌∷◌ c s) = code c ∷ codes s

abbrev tilde : ℕ
tilde = b'~'

abbrev slash : ℕ
slash = b'/'

-- RFC 6901: `~1` stands for a slash and `~0` for a tilde; the first argument says that a tilde was
-- just read.
reveal : Bool → List ℕ → List ℕ
reveal pending [] = []
reveal true (c ∷ s) = (if c == b'1' then slash else tilde) ∷ reveal false s
reveal false (c ∷ s) =
    let wait = reveal true s in let rest = reveal false s in if c == tilde then wait else c ∷ rest

-- The parent of a path and its last segment, still escaped; `none` where no slash stands in it.
split_last : List ℕ → Option (List ℕ × List ℕ)
split_last [] = none
split_last (c ∷ s) = elim (split_last s) [
  | none ↦ if c == slash then some ([], s) else none
  | some (p, k) ↦ some (c ∷ p, k)
]

codes-append : (s t : String) → codes (String.◌++◌ s t) ≡ codes s ++ codes t
codes-append String.[] t = rw (append.nil t) refl
codes-append (String.◌∷◌ c s) t = rw (append.cons c s t, codes-append s t) refl

abbrev reveal_key : Option (List ℕ × List ℕ) → Option (List ℕ × List ℕ)
reveal_key none = none
reveal_key (some (p, k)) = some (p, reveal false k)

-- The parent of a path and its last segment.
unfoldable pub parent_and_key : List ℕ → Option (List ℕ × List ℕ)
unfolding split_last reveal
parent_and_key path = reveal_key (split_last path)

substitute : ℕ → List ℕ → List ℕ → List ℕ
substitute k by [] = []
substitute k by (c ∷ s) = let rest = substitute k by s in if c == k then by ++ rest else c ∷ rest

hide_all : List ℕ → List ℕ
hide_all [] = []
hide_all (c ∷ s) =
    let rest = hide_all s in
    if c == tilde then tilde ∷ b'0' ∷ rest else if c == slash then tilde ∷ b'1' ∷ rest else c ∷ rest

codes-replace : (k : ℕ) (by s : String) → codes (replace k by s) ≡ substitute k (codes by) (codes s)
unfolding replace substitute
codes-replace k by String.[] = refl
codes-replace k by (String.◌∷◌ c s) = elim (Bool-cases (code c == k)) [
  | inl h ↦ rw (h, codes-append by (replace k by s), codes-replace k by s) refl
  | inr h ↦ rw (h, codes-replace k by s) refl
]

substitute-substitute :
    (s : List ℕ)
    → substitute slash (tilde ∷ b'1' ∷ []) (substitute tilde (tilde ∷ b'0' ∷ []) s) ≡ hide_all s
unfolding substitute hide_all
substitute-substitute [] = refl
substitute-substitute (c ∷ s) = ground (arith, substitute-substitute s)

codes-escape : (segment : String) → codes (escape segment) ≡ hide_all (codes segment)
unfolding escape
codes-escape segment =
    rw
      (
        codes-replace slash "~1" (replace tilde "~0" segment),
        codes-replace tilde "~0" segment,
        substitute-substitute (codes segment),
      )
      refl

reveal-hide_all : (s : List ℕ) → reveal false (hide_all s) ≡ s
unfolding reveal hide_all
reveal-hide_all [] = refl
reveal-hide_all (c ∷ s) = ground (arith, reveal-hide_all s)

split_last-hide_all : (s : List ℕ) → split_last (hide_all s) ≡ none
unfolding split_last hide_all
split_last-hide_all [] = refl
split_last-hide_all (c ∷ s) = ground (arith, split_last-hide_all s)

split_last-append : (p s : List ℕ) → split_last s ≡ none → split_last (p ++ slash ∷ s) ≡ some (p, s)
unfolding split_last
split_last-append [] s h = rw (h) refl
split_last-append (c ∷ p) s h = rw (split_last-append p s h) refl

codes-child_path :
    (path segment : String)
    → codes (child_path path segment) ≡ codes path ++ slash ∷ hide_all (codes segment)
unfolding child_path
codes-child_path path segment =
    rw
      (
        codes-append path (String.◌++◌ "/" (escape segment)),
        codes-append "/" (escape segment),
        codes-escape segment,
      )
      refl

-- The path of a field reads back to the path of what holds it and to the field's name, whatever
-- characters they have; so two fields never have the same path.
pub parent_and_key-child_path :
    (path segment : String)
    → parent_and_key (codes (child_path path segment)) ≡ some (codes path, codes segment)
unfolding parent_and_key
parent_and_key-child_path path segment =
    rw
      (
        codes-child_path path segment,
        parent_and_key,
        split_last-append (codes path) (hide_all (codes segment))
            (split_last-hide_all (codes segment)),
        reveal-hide_all (codes segment),
      )
      refl
