-- ===== src/Rule/Hostname.antt =====
-- internal/resolver/resolver.go: which texts may be a DNS name. Text is read by its code points.
use Prim.Native.Char.{code}
use nft.Base.{
  Bool, List, String, [], all, eqb, false, if◌then◌else◌, leb, nat_eq, not, pair_eq, string_eq, ℕ,
  ◌&&◌, ◌++◌, ◌==◌, ◌||◌, ◌∷◌,
}
use nft.Net.{Net, parses}

abbrev pub codes : String → List ℕ
codes String.[] = []
codes (String.◌∷◌ c s) = code c ∷ codes s

abbrev pub is_digit : ℕ → Bool
is_digit c = leb b'0' c && leb c b'9'

abbrev pub host_char : ℕ → Bool
host_char c =
    (leb b'a' c && leb c b'z')
    || ((leb b'A' c && leb c b'Z') || (is_digit c || (eqb c b'-' || (eqb c b'.' || eqb c b'_'))))

-- strings.TrimSuffix(s, "."): at most one dot is cut.
unfoldable pub trim_dot : List ℕ → List ℕ
trim_dot [] = []
trim_dot (c ∷ []) = if eqb c b'.' then [] else c ∷ []
trim_dot (c ∷ d ∷ s) = c ∷ trim_dot (d ∷ s)

-- The last part of strings.Split(s, "."); `acc` is that of the part before the next dot.
unfoldable pub last_label : List ℕ → List ℕ → List ℕ
last_label acc [] = acc
last_label acc (c ∷ s) = last_label (if eqb c b'.' then [] else acc ++ c ∷ []) s

module _ {ℓ} {Ip : Type ℓ} (net : Net Ip) where
  unfoldable pub is_hostname : String → Bool
  is_hostname s = if s == "" then false else if parses net s then false else all host_char (codes s)

  unfoldable pub plausible_hostname : String → Bool
  unfolding is_hostname trim_dot last_label
  plausible_hostname s =
      if not (is_hostname s) then false else elim (last_label [] (trim_dot (codes s))) [
        | [] ↦ false
        | c ∷ rest ↦ not (all is_digit (c ∷ rest))
      ]
