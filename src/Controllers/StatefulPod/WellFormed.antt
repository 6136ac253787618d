-- ===== src/Controllers/StatefulPod/WellFormed.antt =====
-- When a `StatefulPod` is one that the handlers of controllers/statefulpod/ can work on without a panic.
use iapetos.Prelude.{
  ℕ, String, ◌≡◌, refl, ◌∙◌, inl, inr, Option, none, some, List, [], ◌∷◌, ◌==◌, if◌then◌else◌,
  Option-cases,
}
use iapetos.Prelude.Int.{ℤ, pos, negsuc}
use iapetos.Prelude.Slices.{length}
use iapetos.Api.{Volume, PvcSpec, StatefulPod}
use iapetos.Services.Pvc
use iapetos.Services.Resource.{default_volume, default_claim, set_pvc_name}
use iapetos.Text.{itoa, dashed}
use iapetos.Services.StatefulPod.Settling.{SameButVersion}

abbrev pub IsSome : {A : Type 0} → Option A → Type 0
IsSome none = ⊥
IsSome (some _) = Unit

-- The size is there, and not negative.
abbrev pub IsSized : Option ℤ → Type 0
IsSized none = ⊥
IsSized (some (pos _)) = Unit
IsSized (some (negsuc _)) = ⊥

-- The first volume has a claim.
abbrev pub HasClaim : List Volume → Type 0
HasClaim [] = ⊥
HasClaim (v ∷ _) = IsSome v.claim_name

-- With a claim template, the pod template has a volume to mount it, and the template has a class.
abbrev pub IsMountable : Option PvcSpec → List Volume → Type 0
IsMountable none _ = Unit
IsMountable (some spec) volumes = HasClaim volumes × IsSome spec.storage_class_name

pub record IsWellFormed (sp : StatefulPod) : Type 0 where
  pub aligned : length sp.status.pod_status_mes ≡ length sp.status.pvc_status_mes
  pub sized : IsSized sp.spec.size
  pub mountable : IsMountable sp.spec.pvc_template sp.spec.pod_template.volumes

-- What the making of templates leaves alone: the status, the size, and that the object can be mounted.
pub record SameStatus (sp sp' : StatefulPod) : Type 0 where
  pub status : sp'.status ≡ sp.status
  pub size : sp'.spec.size ≡ sp.spec.size
  pub mountable : IsMountable sp'.spec.pvc_template sp'.spec.pod_template.volumes
  pub template : IsSome sp.spec.pvc_template → IsSome sp'.spec.pvc_template

pub SameStatus-IsWellFormed :
    {sp sp' : StatefulPod} → IsWellFormed sp → SameStatus sp sp' → IsWellFormed sp'
SameStatus-IsWellFormed wf same = record {
  aligned = rw same.status wf.aligned;
  sized = rw same.size wf.sized;
  mountable = same.mountable;
}

pub SameStatus-refl : {sp : StatefulPod} → IsWellFormed sp → SameStatus sp sp
SameStatus-refl wf = record {
  status = refl;
  size = refl;
  mountable = wf.mountable;
  template = λ t. t;
}

pub SameStatus-trans : {a b c : StatefulPod} → SameStatus a b → SameStatus b c → SameStatus a c
SameStatus-trans p q = record {
  status = q.status ∙ p.status;
  size = q.size ∙ p.size;
  mountable = q.mountable;
  template = λ t. q.template (p.template t);
}

pub SameButVersion-IsWellFormed :
    {sp sp' : StatefulPod} → IsWellFormed sp → SameButVersion sp sp' → IsWellFormed sp'
SameButVersion-IsWellFormed {sp} wf same =
    rw same (record { aligned = wf.aligned; sized = wf.sized; mountable = wf.mountable })

default_volume-IsSome :
    (v : Volume)
    → IsSome v.claim_name
    → (claim : String) × (v' : Volume) × (default_volume v ≡ some (claim, v'))
      × IsSome v'.claim_name
unfolding default_volume
default_volume-IsSome v h = elim (Option-cases v.claim_name) [
  | inl e ↦ absurd (rw e at h)
  | inr (claim, e) ↦
      let claim' = if claim == "" then "data" else claim in
      (claim', record v { claim_name = some claim' }, rw e, tt)
]

-- The default claim name can be written, and leaves the template mountable.
default_claim-HasClaim :
    (vs : List Volume)
    → HasClaim vs
    → (claim : String) × (vs' : List Volume) × (default_claim vs ≡ some (claim, vs')) × HasClaim vs'
unfolding default_claim
default_claim-HasClaim [] h = absurd h
default_claim-HasClaim (v ∷ vs) h =
    let (claim, v', e, some_claim) = default_volume-IsSome v h in
    (claim, v' ∷ vs, rw (e, default_claim), some_claim)

HasClaim-IsMountable :
    (t : Option PvcSpec) (vs vs' : List Volume)
    → IsMountable t vs
    → HasClaim vs'
    → IsMountable t vs'
HasClaim-IsMountable none vs vs' m h = tt
HasClaim-IsMountable (some spec) vs vs' m h = (h, m.1)

mountable-HasClaim :
    (t : Option PvcSpec) (vs : List Volume) → IsSome t → IsMountable t vs → HasClaim vs
mountable-HasClaim none vs s m = absurd s
mountable-HasClaim (some spec) vs s m = m.0

-- `SetPVCName` does not panic on a well-formed object with a claim template.
pub set_pvc_name-SameStatus :
    (sp : StatefulPod) (index : ℤ)
    → IsWellFormed sp
    → IsSome sp.spec.pvc_template
    → (name : String) × (sp' : StatefulPod) × (set_pvc_name sp index ≡ some (name, sp'))
      × SameStatus sp sp'
unfolding set_pvc_name
set_pvc_name-SameStatus sp index wf has =
    let t = sp.spec.pvc_template in
    let vs = sp.spec.pod_template.volumes in
    let claimed = mountable-HasClaim t vs has wf.mountable in
    let (claim, vs', e, h) = default_claim-HasClaim vs claimed in
    (
      dashed claim (dashed sp.meta.name (itoa index)),
      record sp {
        spec = record sp.spec { pod_template = record sp.spec.pod_template { volumes = vs' } };
      },
      rw (e, set_pvc_name),
      record {
        status = refl;
        size = refl;
        mountable = HasClaim-IsMountable t vs vs' wf.mountable h;
        template = λ s. s;
      },
    )

pub get_name-SameStatus :
    (sp : StatefulPod) (index : ℤ)
    → IsWellFormed sp
    → IsSome sp.spec.pvc_template
    → (name : String) × (sp' : StatefulPod) × (Pvc.get_name sp index ≡ some (name, sp'))
      × SameStatus sp sp'
unfolding Pvc.get_name
get_name-SameStatus = set_pvc_name-SameStatus

-- Still well-formed, with the desired size untouched, and with a number of pod entries as `P` says.
abbrev pub Resized : (ℕ → Type 0) → StatefulPod → StatefulPod → Type 0
Resized P sp sp' =
    IsWellFormed sp' × (sp'.spec.size ≡ sp.spec.size) × P (length sp'.status.pod_status_mes)

abbrev pub SameLength : StatefulPod → StatefulPod → Type 0
SameLength sp = Resized (λ n. n ≡ length sp.status.pod_status_mes) sp
