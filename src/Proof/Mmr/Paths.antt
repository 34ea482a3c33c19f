-- ===== src/Proof/Mmr/Paths.antt =====
-- Authentication paths of mmr.rs: where a leaf lies, the path that starts there, and the peaks.
use origin_tools.Base.{
  ℕ, zero, suc, ◌+◌, ◌-◌, ◌*◌, ◌/◌, ◌%◌, ◌≤◌, ◌<◌, ◌≡◌, refl, sym, ap, subst, ◌∙◌, Bool, some, List,
  [], ◌∷◌, ◌++◌, map, arith, ltb, ◌==◌, if◌then◌else◌, length, get_elem?, set, ok, Bool-cases, inl,
  inr,
}
use origin_tools.Base.Bytes.{Bytes}
use origin_tools.Canary.Merkle.{Hashing}
use origin_tools.Proof.Mmr.{
  Mountain, bit, xor_one, peak, path_from, auth_steps, walk, locate_from, peaks_of, decode_all,
}
use origin_tools.Proof.Mmr.Levels.{
  level, level-Stands, pairs-level, get_elem?-pairs, get_elem?-append_left, get_elem?-append_right,
}
use origin_tools.Proof.Mmr.Mountains.{
  IsHashing, All32, get_elem?-All32, nh, IsMountain, decode_hash-encode, level-All32,
  get_node-level, top_of, peak-top,
}
use origin_tools.Proof.Mmr.Append.{Represents, concat}

get_elem?-one : (t : Bytes) (i : ℕ) (x : Bytes) → get_elem? (t ∷ []) i ≡ some x → x ≡ t
get_elem?-one t zero x e = cc
get_elem?-one t (suc i) x e = cc

-- Writing back what stands there changes nothing.
pub set_same : (ps : List Bytes) (i : ℕ) (x : Bytes) → get_elem? ps i ≡ some x → set ps i x ≡ ps
set_same [] i x e = cc
set_same (p ∷ ps) zero x e = ap (λ t. t ∷ ps) (get_elem?-one p 0 x e)
set_same (p ∷ ps) (suc i) x e = ap (λ t. p ∷ t) (set_same ps i x e)

module _ (h : Hashing) (lib : IsHashing h) (version : ℕ) where
  abbrev hash : Bytes → Bytes → Bytes
  hash = nh h lib version

  pub record Walked (n l idx : ℕ) (m : Mountain) (x top : Bytes) : Type 0 where
    pub path : List (Bytes × Bool)
    pub finds : path_from h n l idx m ≡ some path
    pub leads : walk h version x (auth_steps h path) ≡ some top

  -- The path from a node of a level leads to the peak.
  pub path_from-walk :
      (n l idx : ℕ) (m : Mountain) (xs : List Bytes) (x : Bytes) (w : IsMountain h lib version m xs)
      → l + n ≡ m.height
      → get_elem? (level hash l xs) idx ≡ some x
      → Walked n l idx m x (top_of h lib version m xs w).top
  unfolding path_from walk
  path_from-walk zero l idx m xs x w e g =
      let t = top_of h lib version m xs w in
      let highest : l ≡ m.height = omega arith in
      let alone : level hash l xs ≡ t.top ∷ [] = ap (λ k. level hash k xs) highest ∙ t.alone in
      record {
        path = [];
        finds = refl;
        leads = ap some (get_elem?-one t.top idx x (ap (λ s. get_elem? s idx) (sym alone) ∙ g));
      }
  path_from-walk (suc n) l idx m xs x w e g =
      let left : m.height - l ≡ suc n = omega arith in
      let stands = level-Stands hash m.height l xs (omega arith) w.count in
      let even : length (level hash l xs) ≡ 2 * bit n = stands.count ∙ ap bit left in
      let (y, beside, above) = get_elem?-pairs hash (bit n) (level hash l xs) idx x even g in
      let one_more : suc l ≡ l + 1 = omega arith in
      let up : get_elem? (level hash (suc l) xs) (idx / 2)
          ≡ some (if idx % 2 == 0 then hash x y else hash y x) =
        ap (λ s. get_elem? s (idx / 2)) (sym (pairs-level hash l xs)) ∙ above in
      let rest =
        path_from-walk n (l + 1) (idx / 2) m xs (if idx % 2 == 0 then hash x y else hash y x) w
          (omega arith)
          (subst
            (λ k.
              get_elem? (level hash k xs) (idx / 2)
              ≡ some (if idx % 2 == 0 then hash x y else hash y x))
            one_more up) in
      let sibling = get_node-level h lib version m xs l (xor_one idx) y w (omega arith) beside in
      let decoded = decode_hash-encode h lib version y (
        get_elem?-All32 (level hash l xs) (xor_one idx) y (level-All32 h lib version l xs w.hashes)
          beside) in
      record {
        path = (y, idx % 2 == 0) ∷ rest.path;
        finds = rw (sibling, rest.finds) refl;
        leads = rw decoded rest.leads;
      }

  pub record Located (k i : ℕ) (ms : List Mountain) (x : Bytes) : Type 0 where
    pub mountain_idx : ℕ
    pub index : ℕ
    pub mountain : Mountain
    pub leaves : List Bytes
    pub locates : locate_from k i ms ≡ ok (k + mountain_idx, index)
    pub found : get_elem? ms mountain_idx ≡ some mountain
    pub holds : IsMountain h lib version mountain leaves
    pub leaf : get_elem? leaves index ≡ some x

  pub locate_from-Located :
      (k i : ℕ) (ms : List Mountain) (xss : List (List Bytes)) (x : Bytes)
      → Represents h lib version ms xss
      → get_elem? (concat xss) i ≡ some x
      → Located k i ms x
  unfolding locate_from
  locate_from-Located k i [] [] x r e = cc
  locate_from-Located k i [] (xs ∷ xss) x r e = absurd (omega (arith, r))
  locate_from-Located k i (m ∷ ms) [] x r e = absurd (omega (arith, r))
  locate_from-Located k i (m ∷ ms) (xs ∷ xss) x r e = elim (Bool-cases (ltb i (bit m.height))) [
    | inl here ↦
        let inside : i < length xs = ground (arith, r.0.count, here) in
        record {
          mountain_idx = 0;
          index = i;
          mountain = m;
          leaves = xs;
          locates = rw here (ap (λ t. ok (t, i)) (omega arith));
          found = refl;
          holds = r.0;
          leaf = sym (get_elem?-append_left xs (concat xss) i inside) ∙ e;
        }
    | inr beyond ↦
        let outside : bit m.height ≤ i = ground arith in
        let shift : length xs + (i - bit m.height) ≡ i = omega (arith, r.0.count, outside) in
        let rest = locate_from-Located (k + 1) (i - bit m.height) ms xss x r.1 (
          sym (get_elem?-append_right xs (concat xss) (i - bit m.height))
          ∙ ap (get_elem? (xs ++ concat xss)) shift
          ∙ e) in
        record {
          mountain_idx = suc rest.mountain_idx;
          index = rest.index;
          mountain = rest.mountain;
          leaves = rest.leaves;
          locates = rw beyond (rest.locates ∙ ap (λ t. ok (t, rest.index)) (omega arith));
          found = rest.found;
          holds = rest.holds;
          leaf = rest.leaf;
        }
  ]

  pub record ArePeaks (ms : List Mountain) : Type 0 where
    pub hashes : List Bytes
    pub finds : peaks_of h ms ≡ some hashes
    pub sound : All32 hashes
    pub stand : (i : ℕ) (m : Mountain) → get_elem? ms i ≡ some m → get_elem? hashes i ≡ peak h m

  same_peak : (a m : Mountain) (p : Bytes) → peak h a ≡ some p → some a ≡ some m → some p ≡ peak h m
  same_peak a m p e f = cc

  stand-cons :
      (m : Mountain) (ms : List Mountain) (p : Bytes)
      → peak h m ≡ some p
      → (rest : ArePeaks ms) (i : ℕ) (a : Mountain) → get_elem? (m ∷ ms) i ≡ some a
      → get_elem? (p ∷ rest.hashes) i ≡ peak h a
  stand-cons m ms p e rest zero a f = same_peak m a p e f
  stand-cons m ms p e rest (suc i) a f = rest.stand i a f

  peaks_of_cons :
      (m : Mountain) (ms : List Mountain) (p : Bytes)
      → peak h m ≡ some p
      → length p ≡ 32
      → ArePeaks ms
      → ArePeaks (m ∷ ms)
  unfolding peaks_of
  peaks_of_cons m ms p e k rest = record {
    hashes = p ∷ rest.hashes;
    finds = rw (e, rest.finds) refl;
    sound = (k, rest.sound);
    stand = stand-cons m ms p e rest;
  }

  pub peaks_of-ArePeaks :
      (ms : List Mountain) (xss : List (List Bytes)) → Represents h lib version ms xss → ArePeaks ms
  unfolding peaks_of
  peaks_of-ArePeaks [] [] r = record { hashes = []; finds = refl; sound = tt; stand = λ i m e. cc }
  peaks_of-ArePeaks [] (xs ∷ xss) r = absurd (omega (arith, r))
  peaks_of-ArePeaks (m ∷ ms) [] r = absurd (omega (arith, r))
  peaks_of-ArePeaks (m ∷ ms) (xs ∷ xss) r =
      let t = top_of h lib version m xs r.0 in
      let hash_32 : length t.top ≡ 32 =
        get_elem?-All32 (level hash m.height xs) 0 t.top
          (level-All32 h lib version m.height xs r.0.hashes) (ap (λ s. get_elem? s 0) t.alone) in
      peaks_of_cons m ms t.top (peak-top h lib version m xs r.0) hash_32
        (peaks_of-ArePeaks ms xss r.1)

  pub decode_all-map : (ps : List Bytes) → All32 ps → decode_all h (map h.encode ps) ≡ some ps
  decode_all-map [] a = refl
  decode_all-map (p ∷ ps) a =
      rw (decode_hash-encode h lib version p a.0, decode_all-map ps a.1) refl
