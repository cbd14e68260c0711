-- ===== src/Clientset/FakeSet.antt =====
-- NewSimpleClientset of pkg/ipamapis/client/clientset/versioned/fake/clientset_generated.go, over any
-- tracker and chains of reactors of client-go's package testing.
use f5_ipam_controller_base.Base.{Bool, true, false, Option, none, some, List, [], ◌∷◌}
use f5_ipam_controller_base.Base.Text.{Text, text}
use f5_ipam_controller_base.Provider.Ranges.{Outcome, returns, panics}

-- What a watch reactor returns: whether it has handled the action, the watch, and whether there was no
-- error.
pub record Watched (W : Type 0) : Type 0 where
  pub handled : Bool
  pub ret : Option W
  pub ok : Bool

-- Package testing: trackers `T` with objects `O` and resources `G`, watches `W`, and testing.Fake as
-- `Fake` with its two chains of reactors.
pub record Testing (T O G W Fake : Type 0) : Type 0 where
  pub new_tracker : T
  pub add : O → T → T × Bool
  pub watch : G → Text → T → T × W × Bool
  pub empty_fake : Fake
  pub add_object_reactor : Text → Text → Fake → Fake
  pub add_watch_reactor : Text → (G → Text → T → T × Watched W) → Fake → Fake

-- `Clientset` of the fakes; its discovery client holds the same Fake.
pub record FakeClientset (T Fake : Type 0) : Type 0 where
  pub fake : Fake
  pub tracker : T

module _ {T O G W Fake : Type 0} (lib : Testing T O G W Fake) where
  abbrev add_next : T × Bool → (T → Outcome T) → Outcome T
  add_next (o, true) rest = rest o
  add_next (o, false) rest = panics

  -- The loop that adds the objects to the tracker.
  unfoldable pub add_each : List O → T → Outcome T
  add_each [] o = returns o
  add_each (obj ∷ objs) o = add_next (lib.add obj o) (add_each objs)

  abbrev watch_result : T × W × Bool → T × Watched W
  watch_result (o, watch, true) = (o, record { handled = true; ret = some watch; ok = true })
  watch_result (o, watch, false) = (o, record { handled = false; ret = none; ok = false })

  -- The reactor to a watch.
  unfoldable pub react_watch : G → Text → T → T × Watched W
  react_watch gvr ns o = watch_result (lib.watch gvr ns o)

  abbrev with_tracker : Outcome T → Outcome (FakeClientset T Fake)
  with_tracker (returns o) = returns (record {
    fake =
        lib.add_watch_reactor (text "*") react_watch
          (lib.add_object_reactor (text "*") (text "*") lib.empty_fake);
    tracker = o;
  })
  with_tracker _ = panics

  -- `NewSimpleClientset`.
  unfoldable pub new_simple_clientset : List O → Outcome (FakeClientset T Fake)
  unfolding add_each react_watch
  new_simple_clientset objects = with_tracker (add_each objects lib.new_tracker)
