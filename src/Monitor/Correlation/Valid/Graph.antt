-- ===== src/Monitor/Correlation/Valid/Graph.antt =====
-- The process graph keeps the invariant.
use gasha_sandbox.Common.{
  ℕ, ◌≡◌, ◌≢◌, refl, Option, none, some, arith, update, ◌==◌, inl, inr, Bool-cases, ◌&&◌,
  update-cases,
}
use gasha_sandbox.Monitor.Events.{Event}
use gasha_sandbox.Monitor.Correlation.State.{ProcessNode, ProcessKey, Engine}
use gasha_sandbox.Monitor.Correlation.Nodes.{build_process_node}
use gasha_sandbox.Monitor.Correlation.Dispatch.{add_process, delete_process, forget}
use gasha_sandbox.Monitor.Correlation.Valid.{IsLive, IsValid}

-- A node written under its own id leaves every process found.
write-IsLive :
    (processes : ℕ → ℕ → Option ProcessNode) (n : ProcessNode) (t p : ℕ) (k : ProcessKey)
    → IsLive processes p k
    → IsLive (update processes n.pid (update (processes n.pid) t (some n))) p k
write-IsLive processes n t p k l = elim (Bool-cases (n.pid == k.pid && t == k.spawn_time)) [
  | inl hit ↦ record {
    keyed = l.keyed;
    node = n;
    found = ground arith;
    named = ground (arith, l.keyed);
  }
  | inr miss ↦ record {
    keyed = l.keyed;
    node = l.node;
    found = ground (arith, l.found);
    named = l.named;
  }
]

-- A new process is found under its own id.
pub add_process-IsValid : (ev : Event) (ce : Engine) → IsValid ce → IsValid (add_process ev ce)
unfolding add_process build_process_node
add_process-IsValid ev ce v = record {
  graph = λ p k e. elim (update-cases ce.pid_to_key ev.pid _ p (some k) e) [
    | inl (ep, ek) ↦ record {
      keyed = ground arith;
      node = build_process_node ev;
      found = ground arith;
      named = ep;
    }
    | inr e' ↦ write-IsLive ce.processes (build_process_node ev) ev.timestamp p k (v.graph p k e')
  ];
  chains = v.chains;
  fits = v.fits;
}

pub delete_process-IsValid :
    (o : Option ProcessKey) (pid : ℕ) (ce : Engine)
    → ((k : ProcessKey) → o ≡ some k → k.pid ≡ pid)
    → IsValid ce
    → IsValid (delete_process o pid ce)
delete_process-IsValid none pid ce h v = v
delete_process-IsValid (some k) pid ce h v = record {
  graph = λ p k' e.
      let other : pid ≢ p = ground arith in
      let e' : ce.pid_to_key p ≡ some k' = ground arith in
      let l = v.graph p k' e' in
      record {
        keyed = l.keyed;
        node = l.node;
        found = ground (arith, l.found, l.keyed, h k refl);
        named = l.named;
      };
  chains = v.chains;
  fits = v.fits;
}

pub forget-IsValid : (pid : ℕ) (ce : Engine) → IsValid ce → IsValid (forget pid ce)
unfolding forget
forget-IsValid pid ce v = record {
  graph = v.graph;
  chains = λ s t st e. v.chains s t st (ground arith);
  fits = v.fits;
}
