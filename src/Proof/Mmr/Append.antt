-- ===== src/Proof/Mmr/Append.antt =====
-- Appending to a range of mmr.rs: whatever is appended, the mountains are those over the leaves, in
-- their order, each lower than the one before it.
use origin_tools.Base.{
  ℕ, suc, ◌+◌, ◌≤◌, ◌<◌, ◌≡◌, refl, sym, ap, subst, ◌∙◌, Option, some, List, [], ◌∷◌, ◌++◌, arith,
  ◌==◌, ==_iff, length, length-append, bind_some, Bool-cases, inl, inr,
}
use origin_tools.Base.Bytes.{Bytes}
use origin_tools.Canary.Merkle.{Hashing}
use origin_tools.Proof.Mmr.{Mountain, MmrState, leaf, carry, push_carry, append_hash}
use origin_tools.Proof.Mmr.Mountains.{IsHashing, All32, IsMountain, leaf-IsMountain}
use origin_tools.Proof.Mmr.Merge.{merge_with-IsMountain}

abbrev pub concat : List (List Bytes) → List Bytes
concat [] = []
concat (xs ∷ xss) = xs ++ concat xss

append_assoc : (xs ys zs : List Bytes) → (xs ++ ys) ++ zs ≡ xs ++ (ys ++ zs)
append_assoc [] ys zs = refl
append_assoc (x ∷ xs) ys zs = ap (λ t. x ∷ t) (append_assoc xs ys zs)

append_nil : (xs : List Bytes) → xs ++ [] ≡ xs
append_nil [] = refl
append_nil (x ∷ xs) = ap (λ t. x ∷ t) (append_nil xs)

-- Every mountain is lower than the one before it, the first lower than `top`.
abbrev pub Descending : ℕ → List Mountain → Type 0
Descending top [] = Unit
Descending top (m ∷ ms) = (m.height < top) × Descending m.height ms

-- One mountain alone can be as tall as `top`: the one before it has to merge with it then.
abbrev Settles : ℕ → List Mountain → Type 0
Settles top [] = Unit
Settles top (m ∷ []) = m.height ≤ top
Settles top (m ∷ k ∷ ms) = Descending top (m ∷ k ∷ ms)

Settles-Descending : (top : ℕ) (ms : List Mountain) → Settles top ms → Descending (suc top) ms
Settles-Descending top [] s = tt
Settles-Descending top (m ∷ []) s = (omega (arith, s), tt)
Settles-Descending top (m ∷ k ∷ ms) s = (omega (arith, s.0), s.1)

-- An empty range of a version.
abbrev pub empty : ℕ → MmrState
empty version = record { version = version; mountains = []; leaf_count = 0 }

module _ (h : Hashing) (lib : IsHashing h) (version : ℕ) where
  -- Each mountain stands over its list of leaves.
  abbrev pub Represents : List Mountain → List (List Bytes) → Type 0
  Represents [] [] = Unit
  Represents [] (xs ∷ xss) = ◌≡◌ {A = ℕ} 0 1
  Represents (m ∷ ms) [] = ◌≡◌ {A = ℕ} 0 1
  Represents (m ∷ ms) (xs ∷ xss) = IsMountain h lib version m xs × Represents ms xss

  record Pushed (top : ℕ) (r : Option (List Mountain)) (leaves : List Bytes) : Type 0 where
    result : List Mountain
    chunks : List (List Bytes)
    pushes : r ≡ some result
    represents : Represents result chunks
    order : concat chunks ≡ leaves
    settled : Settles top result

  carry-Pushed :
      (top : ℕ) (x : Mountain) (ws : List Bytes) (ys : List Mountain) (zss : List (List Bytes))
      → IsMountain h lib version x ws
      → Represents ys zss
      → x.height < top
      → Settles x.height ys
      → Pushed top (carry h version x ys) (ws ++ concat zss)
  carry-Pushed top x ws [] zss a b lower s = record {
    result = x ∷ [];
    chunks = ws ∷ zss;
    pushes = refl;
    represents = (a, b);
    order = refl;
    settled = omega arith;
  }
  carry-Pushed top x ws (y ∷ z ∷ ys) zss a b lower s = record {
    result = x ∷ y ∷ z ∷ ys;
    chunks = ws ∷ zss;
    pushes = refl;
    represents = (a, b);
    order = refl;
    settled = (lower, s);
  }
  carry-Pushed top x ws (y ∷ []) [] a b lower s = absurd (omega (arith, b))
  carry-Pushed top x ws (y ∷ []) (zs ∷ vs ∷ zss) a b lower s = absurd (omega (arith, b.1))
  carry-Pushed top x ws (y ∷ []) (zs ∷ []) a b lower s = elim (Bool-cases (x.height == y.height)) [
    | inl e ↦
        let m =
          merge_with-IsMountain h lib version x y ws zs a b.0 ((==_iff x.height y.height).0 e) in
        record {
          result = m.result ∷ [];
          chunks = (ws ++ zs) ∷ [];
          pushes = rw (e, m.merges) refl;
          represents = (m.holds, tt);
          order = append_assoc ws zs [];
          settled = omega (arith, m.taller, lower);
        }
    | inr e ↦ record {
      result = x ∷ y ∷ [];
      chunks = ws ∷ zs ∷ [];
      pushes = rw e refl;
      represents = (a, b);
      order = refl;
      settled = (lower, (grind arith, tt));
    }
  ]

  push_carry-Pushed :
      (top : ℕ) (ms : List Mountain) (xss : List (List Bytes)) (m : Mountain) (ys : List Bytes)
      → Represents ms xss
      → IsMountain h lib version m ys
      → Descending top ms
      → m.height ≡ 0
      → Pushed top (push_carry h version ms m) (concat xss ++ ys)
  unfolding push_carry
  push_carry-Pushed top [] [] m ys r a d flat = record {
    result = m ∷ [];
    chunks = ys ∷ [];
    pushes = refl;
    represents = (a, tt);
    order = append_nil ys;
    settled = omega (arith, flat);
  }
  push_carry-Pushed top [] (xs ∷ xss) m ys r a d flat = absurd (omega (arith, r))
  push_carry-Pushed top (x ∷ ms) [] m ys r a d flat = absurd (omega (arith, r))
  push_carry-Pushed top (x ∷ ms) (xs ∷ xss) m ys r a d flat =
      let rest = push_carry-Pushed x.height ms xss m ys r.1 a d.1 flat in
      let here =
        carry-Pushed top x xs rest.result rest.chunks r.0 rest.represents d.0 rest.settled in
      record {
        result = here.result;
        chunks = here.chunks;
        pushes = rw (rest.pushes) here.pushes;
        represents = here.represents;
        order = here.order ∙ ap (λ t. xs ++ t) rest.order ∙ sym (append_assoc xs (concat xss) ys);
        settled = here.settled;
      }

  -- The range over `leaves`: mountains of distinct heights, the tallest first, each over its part of
  -- the leaves.
  pub record IsRange (s : MmrState) (leaves : List Bytes) : Type 0 where
    pub chunks : List (List Bytes)
    pub top : ℕ
    pub of_version : s.version ≡ version
    pub represents : Represents s.mountains chunks
    pub order : concat chunks ≡ leaves
    pub count : s.leaf_count ≡ length leaves
    pub descending : Descending top s.mountains

  pub empty-IsRange : IsRange (empty version) []
  empty-IsRange = record {
    chunks = [];
    of_version = refl;
    represents = tt;
    order = refl;
    count = refl;
    top = 0;
    descending = tt;
  }

  pub record Appended (r : Option MmrState) (leaves : List Bytes) : Type 0 where
    pub state : MmrState
    pub appends : r ≡ some state
    pub holds : IsRange state leaves

  -- Appending a hash of 32 bytes to the range over some leaves does not panic, and gives the range over
  -- those leaves and it, of the same version: mountains of which each is lower than the one before it,
  -- each over its part of the leaves, in their order.
  pub append_hash-IsRange :
      (s : MmrState) (leaves : List Bytes) (x : Bytes)
      → IsRange s leaves
      → length x ≡ 32
      → Appended (append_hash h s x) (leaves ++ x ∷ [])
  unfolding append_hash
  append_hash-IsRange s leaves x w e =
      let p =
        push_carry-Pushed w.top s.mountains w.chunks (leaf h x) (x ∷ []) w.represents
          (leaf-IsMountain h lib version x e) w.descending refl in
      let pushes : push_carry h s.version s.mountains (leaf h x) ≡ some p.result =
        ap (λ v. push_carry h v s.mountains (leaf h x)) w.of_version ∙ p.pushes in
      record {
        state = record s { mountains = p.result; leaf_count = s.leaf_count + 1 };
        appends = rw pushes refl;
        holds = record {
          chunks = p.chunks;
          of_version = w.of_version;
          represents = p.represents;
          order = p.order ∙ ap (λ t. t ++ x ∷ []) w.order;
          count = omega (arith, w.count, length-append leaves (x ∷ []));
          top = suc w.top;
          descending = Settles-Descending w.top p.result p.settled;
        };
      }

-- Appending one after the other.
unfoldable pub append_all : Hashing → MmrState → List Bytes → Option MmrState
append_all h s [] = some s
append_all h s (x ∷ xs) = bind_some (append_hash h s x) λ s'. append_all h s' xs

pub append_all-IsRange :
    (h : Hashing) (lib : IsHashing h) (version : ℕ) (s : MmrState) (leaves xs : List Bytes)
    → IsRange h lib version s leaves
    → All32 xs
    → Appended h lib version (append_all h s xs) (leaves ++ xs)
unfolding append_all
append_all-IsRange h lib version s leaves [] w a = record {
  state = s;
  appends = refl;
  holds = subst (IsRange h lib version s) (sym (append_nil leaves)) w;
}
append_all-IsRange h lib version s leaves (x ∷ xs) w a =
    let first = append_hash-IsRange h lib version s leaves x w a.0 in
    let rest = append_all-IsRange h lib version first.state (leaves ++ x ∷ []) xs first.holds a.1 in
    record {
      state = rest.state;
      appends = rw (first.appends) rest.appends;
      holds = subst (IsRange h lib version rest.state) (append_assoc leaves (x ∷ []) xs) rest.holds;
    }
