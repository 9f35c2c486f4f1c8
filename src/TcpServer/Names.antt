-- ===== src/TcpServer/Names.antt =====
-- The names that networker/net/TcpServer.cpp gives to its connections.
use network_program_base_fra.Prelude.{
  ℕ, ◌^◌, ◌≤◌, ◌<◌, ◌≡◌, refl, sym, ap, ◌∙◌, true, [], ◌∷◌, ◌++◌, length, length-append, take,
  take-all, drop, ◌==◌, ==_iff, &&_split, Bool-cases, inl, inr, arith,
}
use network_program_base_fra.Prelude.Int.{pos, pos_part}
use network_program_base_fra.LogStream.Decimal.{read, read-convert}
use network_program_base_fra.TcpServer.{Name, same_name, decimal, conn_name}

same_name_refl : (xs : Name) → same_name xs xs ≡ true
unfolding same_name
same_name_refl [] = refl
same_name_refl (c ∷ cs) = rw ((==_iff c c).1 refl, same_name_refl cs) refl

same_name_eq : (xs ys : Name) → same_name xs ys ≡ true → xs ≡ ys
unfolding same_name
same_name_eq [] [] h = refl
same_name_eq [] (d ∷ ds) h = absurd (ground arith)
same_name_eq (c ∷ cs) [] h = absurd (ground arith)
same_name_eq (c ∷ cs) (d ∷ ds) h =
    let (first, rest) = &&_split (c == d) (same_name cs ds) h in
    let e : c ≡ d = (==_iff c d).0 first in
    let f : cs ≡ ds = same_name_eq cs ds rest in rw (e, f) refl

decimal_lem : (n : ℕ) → n < 2 ^ 31 → (read (decimal n) ≡ pos n) × (length (decimal n) ≤ 21)
decimal_lem n h = let (text, e, f, k) = read-convert (pos n) (omega arith) in rw e (f, k)

append_cancel : (xs ys zs : Name) → xs ++ ys ≡ xs ++ zs → ys ≡ zs
append_cancel [] ys zs h = h
append_cancel (x ∷ xs) ys zs h = append_cancel xs ys zs (ap (drop 1) h)

-- The names of two connections of a server differ.
pub conn_name_inj :
    (name ip_port : Name) (m n : ℕ)
    → length ip_port ≤ 40
    → m < 2 ^ 31
    → n < 2 ^ 31
    → conn_name name ip_port m ≡ conn_name name ip_port n
    → m ≡ n
unfolding conn_name
conn_name_inj name ip_port m n short hm hn e =
    let (f, k) = decimal_lem m hm in
    let (g, l) = decimal_lem n hn in
    let whole : (i : ℕ)
        → length (decimal i) ≤ 21
        → take 63 (45 ∷ ip_port ++ 35 ∷ decimal i) ≡ 45 ∷ ip_port ++ 35 ∷ decimal i =
      λ i h. take-all 63 _ (omega (arith, length-append ip_port (35 ∷ decimal i))) in
    let tails : ip_port ++ 35 ∷ decimal m ≡ ip_port ++ 35 ∷ decimal n =
      ap (drop 1) (sym (whole m k) ∙ append_cancel name _ _ e ∙ whole n l) in
    let digits : decimal m ≡ decimal n = ap (drop 1) (append_cancel ip_port _ _ tails) in
    pos_inj (sym f ∙ ap read digits ∙ g)
  where
    pos_inj : {i j : ℕ} → pos i ≡ pos j → i ≡ j
    pos_inj e = ap pos_part e

-- Looking up one connection's name where another's was put.
pub same_name-conn_name :
    (name ip_port : Name) (m n : ℕ)
    → length ip_port ≤ 40
    → m < 2 ^ 31
    → n < 2 ^ 31
    → same_name (conn_name name ip_port m) (conn_name name ip_port n) ≡ (m == n)
same_name-conn_name name ip_port m n short hm hn = elim (Bool-cases (m == n)) [
  | inl e ↦ rw (e, (==_iff m n).0 e) (same_name_refl (conn_name name ip_port n))
  | inr e ↦ elim (Bool-cases (same_name (conn_name name ip_port m) (conn_name name ip_port n))) [
    | inl f ↦
        let same : m ≡ n = conn_name_inj name ip_port m n short hm hn (same_name_eq _ _ f) in
        absurd (ground arith)
    | inr f ↦ f ∙ sym e
  ]
]
