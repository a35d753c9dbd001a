-- ===== src/Operator/Tests/Reconciled.antt =====
-- The theorems on what a reconciliation leaves, applied to one workspace on a cluster in memory.
use k8s_opencode.Common.{some, ◌≡◌, sym, ap, ◌∙◌}
use k8s_opencode.Common.Json.Marked.{marked}
use k8s_opencode.Operator.Exec.{ok}
use k8s_opencode.Operator.Object.{ObjectMeta, secret_kind, key_of, Kind, Key}
use k8s_opencode.Operator.Memory.{memory, owned_by}
use k8s_opencode.Operator.Contract.{Differs}
use k8s_opencode.Operator.Steady.Metadata.{OwnerLaw}
use k8s_opencode.Operator.Supplies.First.{reconcile_live-HasInputs_first}
use k8s_opencode.Operator.Steady.Again.{of_workspace_secret, mutation-idle}
use k8s_opencode.Operator.Resources.Secrets.{set_workspace_secret}
use k8s_opencode.Operator.Memory.Laws.{memory_contract, memory_contract-lookup}
use k8s_opencode.Operator.Resources.Names.{namespace_name}
use k8s_opencode.Operator.Isolation.Policy.{Guarded, reconcile_live-Guarded}
use k8s_opencode.Operator.Isolation.Away.{later_secret}
use k8s_opencode.Operator.Isolation.Order.{reconcile_live-Guarded_first}
use k8s_opencode.Operator.Reconcile.{reconcile_live}
use k8s_opencode.Operator.Supplies.Needs.{HasInputs, IsSupplied, reconcile_live-IsSupplied}
use k8s_opencode.Operator.Tests.Fixtures.{old_secret, new_secret, ann, empty, plain_config}
use k8s_opencode.Operator.Tests.Runs.{
  with_secret, with_secret_stored, secret_set, reconciled, own_secrets, own_set, set_written,
  secret_written,
}

reconcile_live-Guarded_example :
    Guarded memory memory_contract
      (namespace_name ann)
      (reconcile_live memory marked plain_config "ok8s" ann empty).1
reconcile_live-Guarded_example =
    reconcile_live-Guarded memory memory_contract marked plain_config "ok8s" ann empty reconciled

reconcile_live-IsSupplied_example :
    IsSupplied memory memory_contract
      (namespace_name ann)
      (reconcile_live memory marked plain_config "ok8s" ann empty).1
reconcile_live-IsSupplied_example =
    reconcile_live-IsSupplied memory memory_contract marked plain_config "ok8s" ann empty reconciled

reconcile_live-Guarded_first_example :
    Guarded memory memory_contract
      (namespace_name ann)
      (reconcile_live memory marked plain_config "ok8s" ann empty).1
reconcile_live-Guarded_first_example =
    reconcile_live-Guarded_first memory memory_contract marked plain_config "ok8s" ann empty
      secret_kind own_secrets later_secret secret_written

reconcile_live-HasInputs_first_example :
    HasInputs memory memory_contract ann
      (reconcile_live memory marked plain_config "ok8s" ann empty).1
reconcile_live-HasInputs_first_example =
    reconcile_live-HasInputs_first memory memory_contract marked plain_config "ok8s" ann empty
      own_set set_written

-- The cluster in memory sets the owner as the API's helper does.
memory_owners : OwnerLaw memory
memory_owners = record {
  only_owners = λ ws m m' h. cc (h);
  settled = λ ws m m' m'' h n o.
      (let made : owned_by ws m ≡ m' = cc (h) in
        let same : m''.owner_references ≡ (owned_by ws m).owner_references =
          o ∙ ap (λ (x : ObjectMeta). x.owner_references) (sym made) in
        ap (λ l. ok (record m'' { owner_references = l })) (sym same));
}

mutation-idle_example :
    (memory_contract.lookup
        (memory.create_or_update secret_kind old_secret
          (set_workspace_secret memory ann)
          with_secret).1
        secret_kind
        (key_of secret_kind old_secret)
      ≡ some new_secret)
    × ((k' : Kind) (key' : Key)
        → Differs secret_kind (key_of secret_kind old_secret) k' key'
        → memory_contract.lookup
            (memory.create_or_update secret_kind old_secret
              (set_workspace_secret memory ann)
              with_secret).1
            k'
            key'
          ≡ memory_contract.lookup with_secret k' key')
mutation-idle_example =
    mutation-idle memory memory_owners ann memory_contract secret_kind
      (set_workspace_secret memory ann) of_workspace_secret old_secret new_secret old_secret empty
      with_secret secret_set
      (memory_contract-lookup with_secret secret_kind (key_of secret_kind old_secret)
        ∙ with_secret_stored)
