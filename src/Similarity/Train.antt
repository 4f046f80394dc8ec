-- ===== src/Similarity/Train.antt =====
-- What `train` learns from.
use wookie.Base.{
  ◌>>=◌, ◌+◌, ◌*◌, ◌≤◌, ◌≡◌, ap, subst, ◌∙◌, Bool, false, not, ◌&&◌, List, [], ◌∷◌, length,
  length-append, count_if, All, arith, nat_ord, str_ord, ok, map_result, or_err, type_error,
  >>=-eq-ok,
}
use wookie.MsgPack.{Object, via_array}
use wookie.Similarity.{LearnElement, unpack_learn_element, load_elements}
use wookie.Similarity.Loader.{
  add_sample, Training, training, is_positive, train_element, train_loop, train,
}

-- `valid` is not packed.
unpack_learn_element-invalid :
    (o : Object) (le : LearnElement) → unpack_learn_element o ≡ ok le → le.valid ≡ false
unfolding unpack_learn_element
unpack_learn_element-invalid o le h = ground (arith, h)

ok_injective : {A : Type 0} {a b : A} → ok a ≡ ok b → a ≡ b
ok_injective h = cc

map_result-invalid :
    (os : List Object) (les : List LearnElement)
    → map_result unpack_learn_element os ≡ ok les
    → All (λ le. le.valid ≡ false) les
map_result-invalid [] les h = subst (All (λ le. le.valid ≡ false)) (ok_injective h) tt
map_result-invalid (o ∷ os) les h =
    let (le, made, more) =
      >>=-eq-ok (unpack_learn_element o)
        (λ y. map_result unpack_learn_element os >>= λ ys. ok (y ∷ ys)) h in
    let (rest, mades, all) =
      >>=-eq-ok (map_result unpack_learn_element os) (λ ys. ok (le ∷ ys)) more in
    subst (All (λ le. le.valid ≡ false)) (ok_injective all)
      (unpack_learn_element-invalid o le made, map_result-invalid os rest mades)

train_loop-invalid :
    (t : Training) (les : List LearnElement)
    → All (λ le. le.valid ≡ false) les
    → train_loop t les ≡ record t { invalid = t.invalid + length les }
unfolding train_loop train_element
train_loop-invalid t [] none_valid = ap (λ n. record t { invalid = n }) (omega arith)
train_loop-invalid t (le ∷ les) none_valid = ground (
  arith,
  train_loop-invalid (record t { invalid = t.invalid + 1 }) les none_valid.1,
  none_valid.0,
)

-- Whatever object the elements are read from, `train` then gives dlib no sample, and counts every
-- element as invalid.
pub train-load_elements :
    (o : Object) (les : List LearnElement)
    → load_elements o ≡ ok les
    → train les ≡ record { samples = []; positive = 0; negative = 0; invalid = length les }
unfolding train load_elements
train-load_elements o les loaded =
    let (os, is_array, made) =
      >>=-eq-ok (or_err (via_array o) type_error) (map_result unpack_learn_element) loaded in
    train_loop-invalid training les (map_result-invalid os les made)
    ∙ ap (λ n. record training { invalid = n }) (omega arith)

abbrev learned : LearnElement → Bool
learned le = le.valid && is_positive le.label

abbrev opposite : LearnElement → Bool
opposite le = le.valid && not (is_positive le.label)

-- What `les` add to `s`.
pub record IsBalanced (s t : Training) (les : List LearnElement) : Type 0 where
  pub positives : t.positive ≡ s.positive + count_if learned les
  pub invalids : t.invalid ≡ s.invalid + count_if (λ le. not le.valid) les
  pub negatives : t.negative ≤ s.negative + count_if opposite les
  pub balanced : t.negative ≤ t.positive * 2
  pub sampled : length t.samples ≡ t.positive + t.negative

train_loop-IsBalanced :
    (s : Training) (les : List LearnElement)
    → s.negative ≤ s.positive * 2
    → length s.samples ≡ s.positive + s.negative
    → IsBalanced s (train_loop s les) les
unfolding train_loop train_element add_sample
train_loop-IsBalanced s [] small sampled = record {
  positives = omega arith;
  invalids = omega arith;
  negatives = omega arith;
  balanced = small;
  sampled = sampled;
}
train_loop-IsBalanced s (le ∷ les) small sampled =
    let after = train_element s le in
    let rest : IsBalanced after (train_loop after les) les =
      train_loop-IsBalanced after les (ground (arith, small))
        (ground (arith, sampled, length-append s.samples ((le.features, le.label) ∷ []))) in
    record {
      positives = ground (arith, rest.positives);
      invalids = ground (arith, rest.invalids);
      negatives = ground (arith, rest.negatives);
      balanced = rest.balanced;
      sampled = rest.sampled;
    }

-- For any elements: `train` counts as positive the valid elements with a positive label and as
-- invalid those that are not valid; it takes at most twice as many negative elements as positive
-- ones, and gives dlib one sample for each element counted as positive or negative.
pub train-IsBalanced : (les : List LearnElement) → IsBalanced training (train les) les
unfolding train
train-IsBalanced les = train_loop-IsBalanced training les (omega arith) (omega arith)
