-- ===== src/Network/Tracker/File.antt =====
-- The tracker of replay.rs survives a restart.
use origin_tools.Base.{
  ℕ, zero, suc, ◌*◌, ◌%◌, ◌≤◌, ◌≡◌, refl, ◌∙◌, ap, ap₂, ◌||◌, List, [], ◌∷◌, arith, length,
  length-append, take_append_of_length, drop_append_of_length, ok,
}
use origin_tools.Base.Bytes.{Bytes}
use origin_tools.Base.Eq.{bytes_eq}
use origin_tools.Base.Sets.{contains, insert}
use origin_tools.Network.Tracker.{
  HandshakeReplayTracker, replay_cap, save, load, chunks, concat, insert_all,
}

-- Every nonce has eight bytes.
abbrev pub AllNonces : List Bytes → Type 0
AllNonces [] = Unit
AllNonces (x ∷ xs) = (length x ≡ 8) × AllNonces xs

length-concat : (xs : List Bytes) → AllNonces xs → length (concat xs) ≡ 8 * length xs
length-concat [] h = refl
length-concat (x ∷ xs) h = omega (arith, length-append x (concat xs), length-concat xs h.1)

chunks-concat :
    (n : ℕ) (xs : List Bytes) → AllNonces xs → length (concat xs) ≤ n → chunks n (concat xs) ≡ xs
unfolding chunks
chunks-concat zero [] h le = refl
chunks-concat (suc n) [] h le = refl
chunks-concat n ([] ∷ xs) h le = absurd (omega arith)
chunks-concat zero ((b ∷ bs) ∷ xs) h le = elim le [ ]
chunks-concat (suc n) ((b ∷ bs) ∷ xs) h le =
    ap₂ ◌∷◌ (take_append_of_length 8 (b ∷ bs) (concat xs) h.0) (
      ap (chunks n) (drop_append_of_length 8 (b ∷ bs) (concat xs) h.0)
      ∙ chunks-concat n xs h.1 (omega (arith, length-append bs (concat xs))))

contains-insert_all :
    (xs seen : List Bytes) (n : Bytes)
    → contains (insert_all xs seen) n ≡ (contains xs n || contains seen n)
contains-insert_all [] seen n = refl
contains-insert_all (x ∷ xs) seen n =
    contains-insert_all xs (insert x seen) n ∙ ground (arith, bytes_eq.beq_iff x n)

-- What `load` makes of a saved tracker.
pub record Restores (t t' : HandshakeReplayTracker) : Type 0 where
  pub same : (n : Bytes) → contains t'.seen n ≡ contains t.seen n
  pub queued : t'.order ≡ t.seen
  pub capped : t'.cap ≡ replay_cap

-- A tracker whose nonces have eight bytes is read back from its file: the new one refuses the
-- same nonces. Its queue is in the order of the set's iteration, and its cap is the default one.
pub load-save :
    (t : HandshakeReplayTracker)
    → AllNonces t.seen
    → (t' : HandshakeReplayTracker) × (load (save t) ≡ ok t') × Restores t t'
unfolding load save
load-save t h =
    let body = concat t.seen in
    let aligned : length body % 8 ≡ 0 = omega (arith, length-concat t.seen h) in
    let nonces = chunks-concat (length body) t.seen h (omega arith) in
    (
      record { seen = insert_all t.seen []; order = t.seen; cap = replay_cap },
      ground (arith, aligned, nonces),
      record {
        same = λ n. contains-insert_all t.seen [] n ∙ ground arith;
        queued = refl;
        capped = refl;
      },
    )
