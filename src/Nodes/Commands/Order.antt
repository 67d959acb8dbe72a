-- ===== src/Nodes/Commands/Order.antt =====
-- nodes.py: a chain of command nodes keeps the order in which the nodes are connected.
use comfyui_runpod_agentic_n.Base.{
  String, ◌≡◌, true, Option, List, [], ◌∷◌, ◌++◌, arith, ℤ, pos, negsuc, leb_ℤ,
}
use comfyui_runpod_agentic_n.Base.Sort.{All, All-imp, IsSorted, sorted_by_same, append-IsSorted}
use comfyui_runpod_agentic_n.Specs.Deployment.{SshCommand, SshCommandSpec}
use comfyui_runpod_agentic_n.Nodes.Commands.{
  add_ℕ, max_ℤ, max_order, order_after, commands_of, inferred_command_order, NewCommand, placed,
  append_command,
}

max_above : (a b : ℤ) → (leb_ℤ a (max_ℤ a b) ≡ true) × (leb_ℤ b (max_ℤ a b) ≡ true)
max_above a b = ground arith

leb_trans : (a b c : ℤ) → leb_ℤ a b ≡ true → leb_ℤ b c ≡ true → leb_ℤ a c ≡ true
leb_trans a b c h k = ground arith

max_order-above : (n : ℤ) (cs : List SshCommand) → leb_ℤ n (max_order n cs) ≡ true
unfolding max_order
max_order-above n [] = ground arith
max_order-above n (c ∷ cs) =
    leb_trans n (max_ℤ n c.order) _ (max_above n c.order).0 (max_order-above (max_ℤ n c.order) cs)

max_order-All : (n : ℤ) (cs : List SshCommand) → All (λ c. leb_ℤ c.order (max_order n cs) ≡ true) cs
unfolding max_order
max_order-All n [] = tt
max_order-All n (c ∷ cs) = (
  leb_trans c.order (max_ℤ n c.order) _ (max_above n c.order).1
      (max_order-above (max_ℤ n c.order) cs),
  max_order-All (max_ℤ n c.order) cs,
)

add_above :
    (a b : ℤ)
    → leb_ℤ a b ≡ true
    → (leb_ℤ a (add_ℕ b 100) ≡ true) × (leb_ℤ (add_ℕ a 100) (add_ℕ b 100) ≡ true)
add_above (pos a) (pos b) h = ground arith
add_above (pos a) (negsuc b) h = ground arith
add_above (negsuc a) (pos b) h = ground arith
add_above (negsuc a) (negsuc b) h = ground arith

abbrev Below : ℤ → SshCommand → Type 0
Below n c = (leb_ℤ c.order n ≡ true) × (leb_ℤ (add_ℕ c.order 100) n ≡ true)

order_after-All : (cs : List SshCommand) → All (Below (order_after cs)) cs
order_after-All [] = tt
order_after-All (c ∷ rest) =
    All-imp (λ (x : SshCommand). leb_ℤ x.order (max_order c.order rest) ≡ true)
      (Below (add_ℕ (max_order c.order rest) 100))
      (λ x h. add_above x.order (max_order c.order rest) h) (c ∷ rest)
      (max_order-above c.order rest, max_order-All c.order rest)

-- Where the commands of a chain stand in ascending order, a node adds its own behind them all, at an
-- order that is at least 100 above each of theirs, and the longer chain stands in ascending order
-- again.
pub append_command-IsSorted :
    (c : NewCommand) (previous : Option SshCommandSpec) (node_id : Option String) (display : String)
    → IsSorted (λ c. c.order) (commands_of previous)
    → let n = inferred_command_order previous in
      let added = append_command c previous node_id display in
      (added.commands ≡ commands_of previous ++ placed c n ∷ [])
      × All (λ x. leb_ℤ (add_ℕ x.order 100) n ≡ true) (commands_of previous)
      × IsSorted (λ c. c.order) added.commands
unfolding append_command inferred_command_order
append_command-IsSorted c previous node_id display s =
    let key : SshCommand → ℤ = λ x. x.order in
    let n = inferred_command_order previous in
    let below = order_after-All (commands_of previous) in
    let longer =
      append-IsSorted key (commands_of previous) (placed c n) s (
        All-imp (Below n) (λ x. leb_ℤ x.order n ≡ true) (λ x h. h.0) (commands_of previous)
          below) in
    let same = sorted_by_same key (commands_of previous ++ placed c n ∷ []) longer in
    (
      same,
      All-imp (Below n) (λ x. leb_ℤ (add_ℕ x.order 100) n ≡ true) (λ x h. h.1)
          (commands_of previous) below,
      rw same longer,
    )
