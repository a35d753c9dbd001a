-- ===== src/Operator/Supplies/Stored.antt =====
-- Objects that are stored, and the calls that store them.
use k8s_opencode.Common.{Option, some, ◌≡◌}
use k8s_opencode.Operator.Exec.{ok, Exec}
use k8s_opencode.Operator.Exec.Keeps.{Keeps}
use k8s_opencode.Operator.Exec.Gives.{Gives}
use k8s_opencode.Operator.Object.{Kind, Object, Key, key_of}
use k8s_opencode.Operator.Client.{Client}
use k8s_opencode.Operator.Contract.{Contract, IsVerbatim}
use k8s_opencode.Operator.Isolation.Calls.{Same}

-- An object is stored at an address of which `R` holds.
pub record Stored (c : Client) (contract : Contract c) (k : Kind) (key : Key)
    (R : Object k → Type 0) (w : c.World) : Type 0 where
  pub object : Object k
  pub there : contract.lookup w k key ≡ some object
  pub meets : R object

module _ (c : Client) (contract : Contract c) (k : Kind) (R : Object k → Type 0) where
  pub Keeps-Stored :
      {X : Type 0} (key : Key) (m : c.World → X × c.World)
      → ((o : Option (Object k)) → Keeps (Same c contract k key o) m)
      → Keeps (Stored c contract k key R) m
  Keeps-Stored key m kept = record {
    at = λ w s. record {
      object = s.object;
      there = (kept (some s.object)).at w s.there;
      meets = s.meets;
    };
  }

  pub Gives-there :
      (o : Object k) (f : Object k → Exec c.World (Object k))
      → ((o' : Object k) → R o')
      → Gives (Stored c contract k (key_of k o) R) (c.create_or_update k o f)
  Gives-there o f all = record {
    at = λ w a h.
        (let (o', there) = contract.create_or_update_there k o f w h in
          record { object = o'; there = there; meets = all o' });
  }

  pub Gives-written :
      IsVerbatim k
      → (o : Object k) (f : Object k → Exec c.World (Object k))
      → ((x : Object k) (u : c.World) (o' : Object k) → (f x u).0 ≡ ok o' → R o')
      → Gives (Stored c contract k (key_of k o) R) (c.create_or_update k o f)
  Gives-written v o f made = record {
    at = λ w a h.
        (let (x, u, o', answered, there) = contract.create_or_update_written k v o f w h in
          record { object = o'; there = there; meets = made x u o' answered });
  }
