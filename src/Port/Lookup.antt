-- ===== src/Port/Lookup.antt =====
-- Finding a port: the lists by channel id of src/t7xx_port_proxy.c against a search of the whole
-- table.
use mtk_t7xx_fix.Prelude.{
  ℕ, zero, suc, ◌+◌, ◌<◌, ◌≡◌, refl, sym, ap, ◌∙◌, arith, Bool, true, false, ◌&&◌, Option, none,
  some, List, [], ◌∷◌, ◌++◌, append_assoc, append-nil, length, length-set, length-replicate, get_or,
  get_elem?, set, replicate, get_or-set_self, get_or-set_ne, Bool-cases, inl, inr, ◌==◌, ==_iff,
  if◌then◌else◌,
}
use mtk_t7xx_fix.Port.State.{CldmaId, Port}
use mtk_t7xx_fix.Port.Proxy.{
  PortProxy, ch_id, map_channels, setup_ch_mapping, serves, serves_at, find_in, find_port,
}

-- The first port of the table that serves the channel on the path, counted from `i`.
abbrev pub first_serving : CldmaId → ℕ → ℕ → List Port → Option ℕ
first_serving hif channel i [] = none
first_serving hif channel i (port ∷ rest) =
    let later = first_serving hif channel (suc i) rest in
    if serves hif channel port then some i else later

-- The names of the ports with one channel id, from the name `i` on.
names_of : ℕ → ℕ → List Port → List ℕ
names_of c i [] = []
names_of c i (port ∷ rest) =
    let later = names_of c (suc i) rest in if ch_id port.conf.rx_ch == c then i ∷ later else later

ch_id-lt : (n : ℕ) → ch_id n < 256
ch_id-lt n = omega arith

map_channels_lem :
    (ports : List Port) (i c : ℕ) (lists : List (List ℕ))
    → length lists ≡ 256
    → get_or (map_channels ports i lists) c [] ≡ get_or lists c [] ++ names_of c i ports
unfolding map_channels names_of
map_channels_lem [] i c lists n = sym (append-nil (get_or lists c []))
map_channels_lem (port ∷ rest) i c lists n =
    let k = ch_id port.conf.rx_ch in
    let old = get_or lists k [] in
    map_channels_lem rest (suc i) c (set lists k (old ++ (i ∷ []))) (length-set lists k _ ∙ n)
    ∙ elim (Bool-cases (k == c)) [
      | inl e ↦ rw e (
          ap (λ l. l ++ names_of c (suc i) rest) (at_same e)
          ∙ append_assoc (get_or lists c []) (i ∷ []) (names_of c (suc i) rest))
      | inr e ↦ rw e (
          ap (λ l. l ++ names_of c (suc i) rest)
            (get_or-set_ne lists k c (old ++ (i ∷ [])) [] (ground arith)))
    ]
  where
    at_same :
        (ch_id port.conf.rx_ch == c) ≡ true
        → get_or
            (set lists
              (ch_id port.conf.rx_ch)
              (get_or lists (ch_id port.conf.rx_ch) [] ++ (i ∷ [])))
            c
            []
          ≡ get_or lists c [] ++ (i ∷ [])
    at_same e = rw (sym ((==_iff (ch_id port.conf.rx_ch) c).0 e)) (
        get_or-set_self lists (ch_id port.conf.rx_ch) _ []
          (omega (arith, ch_id-lt port.conf.rx_ch)))

-- A port with another channel id does not serve the channel.
other_id :
    (hif : CldmaId) (channel : ℕ) (port : Port)
    → (ch_id port.conf.rx_ch == ch_id channel) ≡ false
    → serves hif channel port ≡ false
other_id hif channel port e = elim (Bool-cases (channel == port.conf.rx_ch)) [
  | inl s ↦ absurd (ground arith)
  | inr s ↦ rw s (and_false _)
]
  where
    and_false : (b : Bool) → b && false ≡ false
    and_false true = refl
    and_false false = refl

-- The table read from the next name on.
shifted :
    (all : List Port) (i : ℕ) (port : Port) (rest : List Port)
    → ((j : ℕ) → get_elem? all (j + i) ≡ get_elem? (port ∷ rest) j)
    → (j : ℕ) → get_elem? all (j + suc i) ≡ get_elem? rest j
shifted all i port rest at j = ap (λ k. get_elem? all k) (omega arith) ∙ at (suc j)

serves_here :
    (all : List Port) (hif : CldmaId) (channel i : ℕ) (port : Port) (rest : List Port)
    → ((j : ℕ) → get_elem? all (j + i) ≡ get_elem? (port ∷ rest) j)
    → serves_at all hif channel i ≡ serves hif channel port
serves_here all hif channel i port rest at =
    ap (λ o. elim o as (λ _. Bool) [ none ↦ false | some q ↦ serves hif channel q ])
      (ap (λ k. get_elem? all k) (omega arith) ∙ at 0)

find_in_names :
    (all : List Port) (hif : CldmaId) (channel i : ℕ) (rest : List Port)
    → ((j : ℕ) → get_elem? all (j + i) ≡ get_elem? rest j)
    → find_in all hif channel (names_of (ch_id channel) i rest) ≡ first_serving hif channel i rest
unfolding find_in names_of
find_in_names all hif channel i [] at = refl
find_in_names all hif channel i (port ∷ rest) at =
    let ih = find_in_names all hif channel (suc i) rest (shifted all i port rest at) in
    elim (Bool-cases (ch_id port.conf.rx_ch == ch_id channel)) [
      | inl e ↦ rw e (rw (serves_here all hif channel i port rest at, ih))
      | inr e ↦ rw (e, other_id hif channel port e) ih
    ]

get_or-replicate {ℓ} : {A : Type ℓ} (n c : ℕ) (a : A) → get_or (replicate n a) c a ≡ a
get_or-replicate zero c a = refl
get_or-replicate (suc n) zero a = refl
get_or-replicate (suc n) (suc c) a = get_or-replicate n c a

-- After the mapping was set up, looking a channel up in the list of its channel id finds the first
-- port of the whole table that receives that channel on that path, and finds none exactly when
-- no port does.
pub find_port-setup_ch_mapping :
    (prox : PortProxy) (hif : CldmaId) (channel : ℕ)
    → find_port (setup_ch_mapping prox) hif channel ≡ first_serving hif channel 0 prox.ports
unfolding find_port setup_ch_mapping
find_port-setup_ch_mapping prox hif channel =
    ap (λ l. find_in prox.ports hif channel l)
      (map_channels_lem prox.ports 0 (ch_id channel) (replicate 256 [])
          (length-replicate {A = List ℕ} 256 [])
        ∙ ap (λ l. l ++ names_of (ch_id channel) 0 prox.ports)
            (get_or-replicate {A = List ℕ} 256 (ch_id channel) []))
    ∙ find_in_names prox.ports hif channel 0 prox.ports
        (λ j. ap (λ k. get_elem? prox.ports k) (omega arith))
