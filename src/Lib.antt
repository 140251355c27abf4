-- ===== src/Lib.antt =====
-- cornerstone-octree: linear octrees over space-filling-curve keys. A tree is the sorted array of the
-- keys at which its leaves start, closed by the end of the key range ("cornerstone format").
--
-- The parts modelled, under include/cstone/, and the files here:
--   tree/definitions.h     Key: the two key types, their widths and levels; unsigned arithmetic on keys.
--   primitives/clz.hpp     Primitives/Clz: countLeadingZeros, countTrailingZeros.
--   primitives/stl.hpp     Primitives/Search: lower_bound, upper_bound; Search/Splits: their contract.
--   sfc/common.hpp         Sfc/Range: nodeRange, log8ceil, isPowerOf8, treeLevel, octalDigit,
--                          octalPower, enclosingBoxCode, lastNzPlace; Sfc/Power: powers of eight;
--                          Sfc/Prefix: prefixes, placeholder-bit keys, locateNode, masked keys,
--                          smallestCommonBox; Prefix/RoundTrip, Box: their laws; Sfc/Span:
--                          spanSfcRange; Span/Loops, Places, Cover: the range that it covers.
--   tree/cs_util.hpp       Tree/Leaves: checkOctreeInvariants, makeRootNodeTree, and the format by its
--                          arithmetic; Leaves/Check: the check; Leaves/Chain: runs of nodes.
--   tree/csarray.hpp       Tree/Csarray: siblingAndLevel, calculateNodeOp, rebalanceDecision,
--                          processNode, rebalanceTree, updateTreelet. Csarray/Siblings and Groups:
--                          groups of eight siblings; Decision: the opcodes; Pieces, Rebalance: the
--                          rewrite; Valid, Step: the format after a step; Converged: a step that
--                          changes nothing; Reads: the reads inside the arrays.
--                          Tree/Counts: findNodeBelow, findNodeAbove, calculateNodeCount,
--                          findSearchBounds, updateNodeCount, computeNodeCounts, updateOctree,
--                          computeOctree. Counts/Guess, Bounds: the search from a guess; Exact, Whole,
--                          Every: the counts; Update: one update; Splitting, Rounds, Build: the rounds
--                          of computeOctree. Tree/Spanning: computeSpanningTree; Spanning/Covered: its
--                          format.
--   tree/octree.hpp        Tree/Linked: binaryKeyWeight, createUnsortedLayoutCpu, linkTreeCpu,
--                          getLevelRangeCpu, containingNode, maxDepth; Linked/Levels, Depth: levels;
--                          Search, Children, Rounds, Siblings, Links: the links of linkTreeCpu;
--                          Containing: the way down to a node. Linked/Build: buildOctreeCpu; Build/Order,
--                          Sorted: its sort and the inverse of its order. Linked/Upsweep:
--                          upsweep, NodeCount; Upsweep/Combined: what it leaves. Linked/Access: the
--                          accessors of Octree and the ranges of children.
--   domain/index_ranges.hpp  Domain/IndexRanges: IndexRanges, SendList, SendRanges, ExchangeLog;
--                          IndexRanges/View: the ranges that can be read back.
--   domain/domaindecomp.hpp  Domain/Decomposition: SfcAssignment, uniformBins, makeSfcAssignment,
--                          translateAssignment, createSendRanges, shiftSendRanges,
--                          initialDomainSplits; Decomposition/Ranks, Sums, Bins, Assign, Initial,
--                          Translate: what these give.
--   primitives/gather.hpp  Primitives/Gather: gather, scatter, gatherScatter, omp_copy, sort_by_key;
--                          Gather/Scatter, Sort: their laws.
--   focus/rebalance.hpp    Focus/Rebalance: mergeCountAndMacOp, nzAncestorOp, protectAncestors and
--                          their callers; Rebalance/Depth, Decision, Protect, Interleaving: the
--                          operations, the search for an ancestor, the order of the threads. Focus/Enforce:
--                          enforceKeySingle, enforceKeys; Enforce/Ancestors, Status, Keys: what they
--                          take back, report and change. Focus/RangeCount: rangeCount.
--   sfc/morton.hpp         Sfc/Morton: expandBits, compactBits, iMorton, decodeMorton, mortonIBox;
--                          Morton/Spread, Parts, Decode: the bits that the steps move; Cells: the
--                          curve's cells. Sfc/Curve: what the library relies on in a curve.
--   sfc/hilbert.hpp        Sfc/Hilbert: iHilbert, decodeHilbert, hilbertIBox; Hilbert/Turns, Encode:
--                          a round and the loop on the bits below a level; Decode: the round trip;
--                          Places, Cells: the curve's cells. Traversal/Boxes/Nodes: the box of a node.
--   sfc/box.hpp            Sfc/Box: SimpleBox<int>, pbcAdjust, pbcDistance.
--   traversal/boxoverlap.hpp  Traversal/Overlap: overlapTwoRanges at an unsigned type. Traversal/Boxes:
--                          overlapRange, rangeSep, overlap, boxSeparation, containedIn, addDelta;
--                          Boxes/Periodic: overlaps in periodic coordinates; Contained: boxes inside
--                          key ranges, for any curve.
--   domain/layout.hpp      Domain/Layout: invertRanges, computeNodeLayout; Layout/Complement and
--                          Offsets: what they give.
--   fields/field_states.hpp  Fields: FieldStates, whose exceptions are values that carry the state at
--                          the throw; Fields/Conserved: the conserved fields; Acquired: the
--                          memory that acquireOne passes on.
-- Base holds the shared names: tests, lists indexed by native numbers, powers of two and eight, bits,
-- loops over arrays, integers. Tests and its children run the code on samples.
--
-- A key is a native number below the modulus of its type; sums, differences, products and shifts of
-- keys wrap there. `unsigned` and `size_t` values are native numbers, with the wrap-around written out
-- where the code can reach it. Array sizes and node indices are taken to fit an `int`, coordinates of
-- boxes are integers without overflow, an iterator is its index, and a read out of bounds gives 0, which
-- the statements exclude by their bounds. A loop of a binary search takes as fuel the number of elements
-- it searches, and a round takes at least one off it. findSearchBounds computes indices in the signed
-- key type, which wrap here as well; its loop doubles its range, so as many rounds as there are keys are
-- enough where the keys are at most a quarter of the modulus (2 ^ 30 for 32-bit keys) and nothing wraps.
-- The loop of computeOctree runs on a fuel; more than maxTreeLevel rounds and one for each key of the
-- key range are enough, since after maxTreeLevel rounds no node is split and a round merges some node.
-- OpenMP loops are run in index order: each round writes its own element.
--
-- Not modelled: floating point geometry, MPI, CUDA, and the parts that the manifest lists as such.
pub mod Base
pub mod Key
pub mod Primitives
pub mod Sfc
pub mod Tree
pub mod Domain
pub mod Fields
pub mod Traversal
pub mod Focus
pub mod Tests
