-- ===== src/Config/Peers.antt =====
-- A list of peers that is written with commas, and read back.
use Prim.Native.Char.{code}
use Prim.Native.String.{◌++◌}
use text.Mathlib.TextLemmas.{cons-append, nil-append}
use shc.Base.{
  ℕ, ◌≡◌, refl, ap, String, List, [], ◌∷◌, Bool, true, false, ◌==◌, arith, if◌then◌else◌, All,
}
use shc.Base.Texts.{is_empty, trim_space, split}
use shc.Config.{trim_peers, read_peers}

-- The text has no character of this number.
unfoldable pub lacks : ℕ → String → Bool
lacks sep String.[] = true
lacks sep (String.◌∷◌ c s) = let rest = lacks sep s in if code c == sep then false else rest

-- A peer that stands in a list as it is: no spaces around it, no comma, and not empty.
pub record IsPlain (p : String) : Type 0 where
  pub no_comma : lacks 44 p ≡ true
  pub trimmed : trim_space p ≡ p
  pub not_empty : is_empty p ≡ false

-- strings.Join(peers, ",")
unfoldable pub join_peers : List String → String
join_peers [] = ""
join_peers (p ∷ []) = p
join_peers (p ∷ q ∷ rest) = p ++ "," ++ join_peers (q ∷ rest)

split-lacks : (p : String) → lacks 44 p ≡ true → split 44 p ≡ p ∷ []
unfolding lacks split
split-lacks String.[] h = refl
split-lacks (String.◌∷◌ c p) h = ground (arith, split-lacks p)

split_at_comma : (s : String) → split 44 ("," ++ s) ≡ "" ∷ split 44 s
unfolding split
split_at_comma s = rw (cons-append, nil-append) refl

split-append : (p s : String) → lacks 44 p ≡ true → split 44 (p ++ "," ++ s) ≡ p ∷ split 44 s
unfolding lacks split
split-append String.[] s h = rw nil-append (split_at_comma s)
split-append (String.◌∷◌ c p) s h = rw cons-append (ground (arith, split-append p s))

trim_peers-split :
    (p : String) (peers : List String)
    → All IsPlain (p ∷ peers)
    → trim_peers (split 44 (join_peers (p ∷ peers))) ≡ p ∷ peers
unfolding join_peers trim_peers
trim_peers-split p [] (h, t) = rw (split-lacks p h.no_comma) (rw h.trimmed (rw h.not_empty refl))
trim_peers-split p (q ∷ rest) (h, t) =
    rw (split-append p (join_peers (q ∷ rest)) h.no_comma)
      (rw h.trimmed (rw h.not_empty (ap (λ ps. p ∷ ps) (trim_peers-split q rest t))))

is_empty-join_peers :
    (p : String) (peers : List String)
    → is_empty p ≡ false
    → is_empty (join_peers (p ∷ peers)) ≡ false
unfolding join_peers
is_empty-join_peers p [] e = e
is_empty-join_peers (String.◌∷◌ c p) (q ∷ rest) e = rw cons-append refl
is_empty-join_peers String.[] (q ∷ rest) e = cc

-- A list of peers none of which is empty, has a comma or has spaces around it is read back from its
-- text with commas in between, whether the list is empty or not.
pub read_peers-join_peers :
    (peers : List String) → All IsPlain peers → read_peers (join_peers peers) ≡ peers
unfolding read_peers join_peers
read_peers-join_peers [] h = refl
read_peers-join_peers (p ∷ peers) (h, t) =
    rw (is_empty-join_peers p peers h.not_empty) (trim_peers-split p peers (h, t))
