-- ===== src/Tests.antt =====
-- The operations run on concrete data, and the theorems applied to it.
mod Samples
mod InsertionSort
mod RingTests
mod RgroupTests
mod KetamaTests
mod DispatchTests
mod ClusterTests
mod GroupInfoTests
mod WordTests
mod ResponseTests
mod IoTests
mod StringTests
mod MemberTests
mod ValueTests
mod SwitchoverTests
mod GroupSamples
mod GroupListTests
mod FollowTests
mod SendTests
