-- ===== src/Edge/Posture/Processes.antt =====
-- The responses for processes bring what is known of them to the new data.
use sdk_golang.Common.{
  ◌≡◌, ◌≢◌, refl, sym, ap, ◌∙◌, Bool, true, false, not, ◌&&◌, ◌||◌, Option, none, some, List, [],
  ◌∷◌, if◌then◌else◌, All,
}
use mathlib.Core.Path.{subst}
use sdk_golang.Common.Text.{Text, str_eq, str_eq-true, str_eq_refl, str_eq-false, get, Keyed}
use sdk_golang.Edge.Posture.{
  Libraries, ProcessInfo, process_response, process_changed, process_responses,
}
use sdk_golang.Edge.Posture.View.{Report, report, learn, learn_all, Moves}

some-injective {ℓ} : {A : Type ℓ} {a b : A} → some a ≡ some b → a ≡ b
some-injective e = cc

pub both : (a b : Bool) → (a && b) ≡ true → (a ≡ true) × (b ≡ true)
both true true e = (refl, refl)
both true false e = cc
both false b e = cc

neither : (a b : Bool) → (a || b) ≡ false → (a ≡ false) × (b ≡ false)
neither true b e = cc
neither false b e = (refl, e)

un_not : (a : Bool) → not a ≡ false → a ≡ true
un_not true e = refl
un_not false e = cc

same_bool : (a b : Bool) → (if a then b else not b) ≡ true → a ≡ b
same_bool true true e = refl
same_bool true false e = cc
same_bool false true e = cc
same_bool false false e = refl

module _ (lib : Libraries) where
  -- A process that is not sent is the one of before.
  unchanged :
      (o : Option ProcessInfo) (p : ProcessInfo)
      → process_changed lib o p ≡ false
      → (q : ProcessInfo) × (o ≡ some q) × (report q ≡ report p)
  unchanged none p e = cc
  unchanged (some q) p e =
      let other_state = not (if q.is_running then p.is_running else not p.is_running) in
      let other_hash = not (str_eq q.hash p.hash) in
      let other_prints = not (lib.equal_slices q.signer_fingerprints p.signer_fingerprints) in
      let (start, prints) = neither (other_state || other_hash) other_prints e in
      let (state, hash) = neither other_state other_hash start in
      let is_running : q.is_running ≡ p.is_running =
        same_bool _ _ (un_not (if q.is_running then p.is_running else not p.is_running) state) in
      let is_hash : q.hash ≡ p.hash = str_eq-true _ _ (un_not (str_eq q.hash p.hash) hash) in
      let is_prints : q.signer_fingerprints ≡ p.signer_fingerprints =
        lib.equal_slices-true _ _
          (un_not (lib.equal_slices q.signer_fingerprints p.signer_fingerprints) prints) in
      (
        q,
        refl,
        λ i. record {
          is_running = is_running i;
          hash = is_hash i;
          signer_fingerprints = is_prints i;
        },
      )

  -- The processes of other paths leave a path alone.
  others_keep :
      (k : Text) {a : Option Report} (current : lib.ProcessMap) (ps : List (Text × ProcessInfo))
      → All (λ e. k ≢ e.0) ps
      → Moves (λ v. v.processes k) a a (process_responses lib current ps)
  others_keep k current [] apart v is_a = is_a
  others_keep k {a} current ((path, p) ∷ ps) (other, apart) v is_a =
      let sent = process_response p.query_id path p in
      let off : str_eq path k ≡ false = str_eq-false path k (λ e. other (sym e)) in
      let rest = others_keep k current ps apart in
      by_change (process_changed lib (lib.lookup path current) p) (rest v is_a)
        (rest (learn sent v) (rw off is_a))
    where
      by_change :
          (b : Bool)
          → (learn_all (process_responses lib current ps) v).processes k ≡ a
          → (learn_all
                (process_responses lib current ps)
                (learn (process_response p.query_id path p) v)).processes
              k
            ≡ a
          → (learn_all
                (if b
                  then process_response p.query_id path p ∷ process_responses lib current ps
                  else process_responses lib current ps)
                v).processes
              k
            ≡ a
      by_change true left sent = sent
      by_change false left sent = left

  pub process_sets :
      (k : Text) (p : ProcessInfo) {a : Option Report} (current : lib.ProcessMap)
      (ps : List (Text × ProcessInfo))
      → Keyed ps
      → get k ps ≡ some p
      → ((q : ProcessInfo) → lib.lookup k current ≡ some q → a ≡ some (report q))
      → Moves (λ v. v.processes k) a (some (report p)) (process_responses lib current ps)
  process_sets k p current [] keyed found known v is_a =
      absurd (let no : none ≡ some p = found in cc)
  process_sets k p {a} current ((path, r) ∷ ps) (apart, keyed) found known v is_a =
      by_path (str_eq path k) refl found (λ g. process_sets k p {a = a} current ps keyed g known)
    where
      goal : Bool → Type 0
      goal b =
          (learn_all
              (if b
                then process_response r.query_id path r ∷ process_responses lib current ps
                else process_responses lib current ps)
              v).processes
            k
          ≡ some (report p)

      here :
          path ≡ k
          → r ≡ p
          → (b : Bool) → process_changed lib (lib.lookup path current) r ≡ b
          → goal b
      here is_k is_p true change =
          others_keep k current ps (subst (λ t. All (λ e. t ≢ e.0) ps) is_k apart)
            (learn (process_response r.query_id path r) v)
            (rw (is_k, str_eq_refl k) (ap (λ x. some (report x)) is_p))
      here is_k is_p false same =
          let (q, is_q, said) = unchanged (lib.lookup path current) r same in
          others_keep k current ps (subst (λ t. All (λ e. t ≢ e.0) ps) is_k apart) v (
            is_a
            ∙ known q (ap (λ t. lib.lookup t current) (sym is_k) ∙ is_q)
            ∙ ap some said
            ∙ ap (λ x. some (report x)) is_p)

      there :
          str_eq path k ≡ false
          → Moves (λ v. v.processes k) a (some (report p)) (process_responses lib current ps)
          → (b : Bool) → goal b
      there off rest true = rest (learn (process_response r.query_id path r) v) (rw off is_a)
      there off rest false = rest v is_a

      by_path :
          (b : Bool)
          → str_eq path k ≡ b
          → (if b then some r else get k ps) ≡ some p
          → (get k ps ≡ some p
              → Moves (λ v. v.processes k) a (some (report p)) (process_responses lib current ps))
          → goal (process_changed lib (lib.lookup path current) r)
      by_path true same is_r rest = here (str_eq-true path k same) (some-injective is_r) _ refl
      by_path false off is_r rest = there off (rest is_r) _
