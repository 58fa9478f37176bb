-- ===== src/Services/Sealed.antt =====
-- What is sent is encrypted for a key that is pinned: what each step has to keep for this, and
-- the ways in which steps are put together.
pub mod Pins
pub mod Steps
pub mod Sends
pub mod Uses
pub mod Runs
use epic_kfc.Base.{
  ℤ, QString, Bool, true, false, Option, none, some, List, [], ◌∷◌, ◌++◌, ◌≡◌, refl, All,
  All-append, if◌then◌else◌,
}
use epic_kfc.Models.{
  ClientError, AuthSession, LocalMessage, TrustPin, Result, success, failure, UserAddress,
}
use epic_kfc.Events.{Event}
use epic_kfc.Store.Tables.{trust_pin}
use epic_kfc.Methods.{Machine}
use epic_kfc.Trust.{PreKeyBundle}
use epic_kfc.Trust.Cached.{IsPinnedCache, IsSound}
use epic_kfc.Services.{
  World, Step, Request, Pending, Output, BundleUse, send_use, forward_use, event, ask, saving,
  after_saving, set_machine, ◌then◌, when_logged_in, requiring, store_of, pinned_bundle,
}
use epic_kfc.Services.Sending.{address_of}

-- every pin of the one machine is a pin of the other
abbrev pub KeepsPins : Machine → Machine → Type 0
KeepsPins m m' =
    (user : QString) (device : ℤ) (pin : TrustPin)
    → trust_pin user device m.store ≡ some pin
    → trust_pin user device m'.store ≡ some pin

pub cache-KeepsPins :
    (o : Option PreKeyBundle) (m m' : Machine)
    → KeepsPins m m'
    → IsPinnedCache o m
    → IsPinnedCache o m'
cache-KeepsPins none m m' k h = tt
cache-KeepsPins (some b) m m' k (pin, found, same) = (pin, k b.user_id b.device_id pin found, same)

-- `encrypted b payload`: the payload was encrypted for the bundle
module _ (encrypted_for : PreKeyBundle → QString → Type 0) where
  -- a draft whose payload was encrypted for the key that is pinned for its recipient
  abbrev pub IsSealed : LocalMessage → Machine → Type 0
  IsSealed draft m =
      (b : PreKeyBundle) × encrypted_for b draft.wire_payload_json
      × ((pin : TrustPin) × (trust_pin draft.recipient_user_id draft.recipient_device_id m.store
            ≡ some pin)
          × (pin.identity_key ≡ b.identity_key))

  abbrev pub IsSealedRequest : Request → Machine → Type 0
  IsSealedRequest (Request.send_message token draft consumed) m = IsSealed draft m
  IsSealedRequest (Request.forward_message token id draft consumed) m = IsSealed draft m
  IsSealedRequest _ m = Unit

  -- a bundle that is waited for with the pin that is in the store
  abbrev pub IsPinnedWait : Pending → Machine → Type 0
  IsPinnedWait (pinned_bundle pin purpose) m =
      trust_pin (address_of purpose).user_id (address_of purpose).device_id m.store ≡ some pin
  IsPinnedWait _ m = Unit

  abbrev pub IsFine : Machine → Output → Type 0
  IsFine m (event e) = Unit
  IsFine m (ask r p) = IsSealedRequest r m × IsPinnedWait p m

  IsSealed-KeepsPins :
      (draft : LocalMessage) (m m' : Machine)
      → KeepsPins m m'
      → IsSealed draft m
      → IsSealed draft m'
  IsSealed-KeepsPins draft m m' k (b, e, (pin, found, same)) =
      (b, e, (pin, k draft.recipient_user_id draft.recipient_device_id pin found, same))

  request-KeepsPins :
      (r : Request) (m m' : Machine) → KeepsPins m m' → IsSealedRequest r m → IsSealedRequest r m'
  request-KeepsPins (Request.send_message token draft consumed) m m' k h =
      IsSealed-KeepsPins draft m m' k h
  request-KeepsPins (Request.forward_message token id draft consumed) m m' k h =
      IsSealed-KeepsPins draft m m' k h
  request-KeepsPins _ m m' k h = tt

  pub wait-KeepsPins :
      (p : Pending) (m m' : Machine) → KeepsPins m m' → IsPinnedWait p m → IsPinnedWait p m'
  wait-KeepsPins (pinned_bundle pin purpose) m m' k h =
      k (address_of purpose).user_id (address_of purpose).device_id pin h
  wait-KeepsPins _ m m' k h = tt

  pub IsFine-KeepsPins :
      (os : List Output) (m m' : Machine) → KeepsPins m m' → All (IsFine m) os → All (IsFine m') os
  IsFine-KeepsPins [] m m' k h = tt
  IsFine-KeepsPins (event e ∷ os) m m' k h = (tt, IsFine-KeepsPins os m m' k h.1)
  IsFine-KeepsPins (ask r p ∷ os) m m' k h = (
    (request-KeepsPins r m m' k h.0.0, wait-KeepsPins p m m' k h.0.1),
    IsFine-KeepsPins os m m' k h.1,
  )

  -- what a step from `w` keeps
  pub record Keeps (w : World) (out : World × List Output) : Type 0 where
    pub pins : KeepsPins w.keys.machine out.0.keys.machine
    pub sound : IsSound w.keys → IsSound out.0.keys
    pub fine : IsSound w.keys → All (IsFine out.0.keys.machine) out.1

  pub emit-Keeps : {w : World} {e : Event} → Keeps w (w, event e ∷ [])
  emit-Keeps = record { pins = λ u d p h. h; sound = λ h. h; fine = λ h. (tt, tt) }

  pub call-Keeps :
      {w : World} {r : Request} {p : Pending}
      → (IsSound w.keys → IsSealedRequest r w.keys.machine)
      → IsPinnedWait p w.keys.machine
      → Keeps w (w, ask r p ∷ [])
  call-Keeps h k = record { pins = λ u d p h. h; sound = λ s. s; fine = λ s. ((h s, k), tt) }

  pub if-Keeps :
      (test : Bool) {w : World} {a b : World × List Output}
      → Keeps w a
      → Keeps w b
      → Keeps w (if test then a else b)
  if-Keeps true h k = h
  if-Keeps false h k = k

  -- one step after another
  pub trans-Keeps :
      (w v : World) (before : List Output) (out : World × List Output)
      → Keeps w (v, before)
      → Keeps v out
      → Keeps w (out.0, before ++ out.1)
  trans-Keeps w v before out a b = record {
    pins = λ u d p h. b.pins u d p (a.pins u d p h);
    sound = λ s. b.sound (a.sound s);
    fine = λ s.
        All-append (IsFine out.0.keys.machine) before out.1
          (IsFine-KeepsPins before _ _ b.pins (a.fine s)) (b.fine (a.sound s));
  }

  -- a change of the machine that keeps the pins
  pub machine-Keeps :
      (w : World) (m : Machine) → KeepsPins w.keys.machine m → Keeps w (set_machine m w, [])
  machine-Keeps w m k = record {
    pins = k;
    sound = λ s. cache-KeepsPins w.keys.last_trusted_bundle w.keys.machine m k s;
    fine = λ s. tt;
  }

  pub saving-Keeps :
      (method : Machine → Machine × Result Bool) (next : Step) (w : World)
      → KeepsPins w.keys.machine (method w.keys.machine).0
      → ((v : World) → Keeps v (next v))
      → Keeps w (saving method next w)
  unfolding saving
  saving-Keeps method next w k h = saved (method w.keys.machine) k
    where
      saved :
          (r : Machine × Result Bool)
          → KeepsPins w.keys.machine r.0
          → Keeps w (after_saving r next w)
      saved (m, success ok) k =
          trans-Keeps w (set_machine m w) [] _ (machine-Keeps w m k) (h (set_machine m w))
      saved (m, failure e) k = trans-Keeps w (set_machine m w) [] _ (machine-Keeps w m k) emit-Keeps

  pub then-Keeps :
      (first next : Step) (w : World)
      → Keeps w (first w)
      → ((v : World) → Keeps v (next v))
      → Keeps w ((first then next) w)
  unfolding ◌then◌
  then-Keeps first next w h k =
      trans-Keeps w (first w).0 (first w).1 (next (first w).0) h (k (first w).0)

  pub logged_in-Keeps :
      (next : Step) (w : World) → ((v : World) → Keeps v (next v)) → Keeps w (when_logged_in next w)
  unfolding when_logged_in
  logged_in-Keeps next w h = required w.session
    where
      required : (s : Option AuthSession) → Keeps w (requiring s next w)
      required none = emit-Keeps
      required (some session) = h w
