-- ===== src/Master/Nodes/Round.antt =====
-- _get_next_IOnode goes round all nodes.
use huron_fs.Prelude.{
  ℕ, zero, suc, ◌<◌, ◌≡◌, refl, sym, ap, subst, ◌∙◌, Option, none, some, List, [], ◌∷◌, ◌++◌,
  append_assoc, arith, length,
}
use huron_fs.Prelude.Map.{ℕ_key, Map}
use huron_fs.Master.{Master, M, NodeInfo, returns}
use huron_fs.Master.Blocks.{next_key}
use huron_fs.Master.Monad.{◌>>=◌, pure}
use huron_fs.Master.Monad.Laws.{run-bind}
use huron_fs.Master.Nodes.{begin, wrap, advance, get_next_io_node}

-- The keys of std::map rise.
abbrev pub After : ℕ → Map ℕ NodeInfo → Type 0
After b [] = Unit {0}
After b ((k, _) ∷ m) = (b < k) × After b m

abbrev pub Rising : Map ℕ NodeInfo → Type 0
Rising [] = Unit {0}
Rising ((k, _) ∷ m) = After k m × Rising m

-- The ids of nodes, as _get_next_IOnode returns them.
pub ids : Map ℕ NodeInfo → List (Option ℕ)
ids [] = []
ids ((k, _) ∷ m) = some k ∷ ids m

-- So many calls of _get_next_IOnode
pub turns : ℕ → M (List (Option ℕ))
turns zero = pure []
turns (suc n) = do id ← get_next_io_node; rest ← turns n; pure (id ∷ rest)

After-split :
    (b k : ℕ) (n : NodeInfo) (pre m : Map ℕ NodeInfo) → After b (pre ++ (k, n) ∷ m) → b < k
After-split b k n [] m h = h.0
After-split b k n ((j, _) ∷ pre) m h = After-split b k n pre m h.1

next_key-Rising :
    (k : ℕ) (n : NodeInfo) (pre m : Map ℕ NodeInfo)
    → Rising (pre ++ (k, n) ∷ m)
    → next_key k (pre ++ (k, n) ∷ m) ≡ begin m
unfolding next_key
next_key-Rising k n [] [] h = ground arith
next_key-Rising k n [] ((j, r) ∷ m) h = ground arith
next_key-Rising k n ((j, x) ∷ pre) m h =
    ground (arith, next_key-Rising k n pre m h.1, After-split j k n pre m h.0)

-- One turn, and the rest of the round.
one_turn :
    (s : Master) (pre : Map ℕ NodeInfo) (k : ℕ) (n : NodeInfo) (suf : Map ℕ NodeInfo)
    → s.registered_io_nodes ≡ pre ++ (k, n) ∷ suf
    → Rising (pre ++ (k, n) ∷ suf)
    → wrap s.current_io_node s.registered_io_nodes ≡ some k
    → turns (length suf) (record s { current_io_node = begin suf })
      ≡ returns (ids suf) (record s { current_io_node = none })
    → turns (suc (length suf)) s ≡ returns (some k ∷ ids suf) (record s { current_io_node = none })
unfolding turns get_next_io_node advance
one_turn s pre k n suf e h w rest =
    run-bind get_next_io_node _ (some k) s (record s { current_io_node = begin suf })
      (ap (λ o. advance o s) w
        ∙ ap (λ (o : Option ℕ). returns (some k) (record s { current_io_node = o }))
            (ap (next_key k) e ∙ next_key-Rising k n pre suf h))
    ∙ run-bind (turns (length suf)) _ (ids suf) (record s { current_io_node = begin suf })
        (record s { current_io_node = none }) rest

turns-from :
    (s : Master) (pre : Map ℕ NodeInfo) (k : ℕ) (n : NodeInfo) (suf : Map ℕ NodeInfo)
    → s.registered_io_nodes ≡ pre ++ (k, n) ∷ suf
    → Rising (pre ++ (k, n) ∷ suf)
    → wrap s.current_io_node s.registered_io_nodes ≡ some k
    → turns (suc (length suf)) s ≡ returns (some k ∷ ids suf) (record s { current_io_node = none })
unfolding turns ids wrap
turns-from s pre k n [] e h w = one_turn s pre k n [] e h w refl
turns-from s pre k n ((j, r) ∷ suf) e h w = one_turn s pre k n ((j, r) ∷ suf) e h w (
    turns-from (record s { current_io_node = some j }) (pre ++ (k, n) ∷ []) j r suf
      (e ∙ sym (append_assoc pre ((k, n) ∷ []) ((j, r) ∷ suf)))
      (subst Rising (sym (append_assoc pre ((k, n) ∷ []) ((j, r) ∷ suf))) h) refl)

turns-all :
    (s : Master) (m : Map ℕ NodeInfo)
    → s.registered_io_nodes ≡ m
    → Rising m
    → s.current_io_node ≡ none
    → turns (length m) s ≡ returns (ids m) (record s { current_io_node = none })
unfolding turns ids wrap
turns-all s [] e h c = ap (λ (o : Option ℕ). returns [] (record s { current_io_node = o })) c
turns-all s ((k, n) ∷ m) e h c =
    turns-from s [] k n m e h (ap (λ o. wrap o s.registered_io_nodes) c ∙ ap begin e)

-- If the nodes are in the order of their ids and the iterator is at their end, as many calls
-- of _get_next_IOnode as there are nodes give each node once, in that order, and the iterator
-- is at the end again.
pub turns-ids :
    (s : Master)
    → Rising s.registered_io_nodes
    → s.current_io_node ≡ none
    → turns (length s.registered_io_nodes) s
      ≡ returns (ids s.registered_io_nodes) (record s { current_io_node = none })
turns-ids s h c = turns-all s s.registered_io_nodes refl h c
